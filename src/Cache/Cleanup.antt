-- ===== src/Cache/Cleanup.antt =====
-- localCache.cleanup (pkg/cache/local.go): the loop over the map against one pass over the list.
use ling_framework.Base.{
  ◌≡◌, refl, sym, ap, subst, ◌∙◌, Bool, true, false, ◌||◌, ◌&&◌, Option, none, some, [], ◌∷◌, arith,
  Str, str_comparable, Distinct, member, inl, inr, Bool-cases, ◌==◌, ==-refl, if◌then◌else◌,
}
use ling_framework.Base.Dict.{keys, fetch, delete, member-keys}
use ling_framework.Base.Time.{Time}
use ling_framework.Cache.{CacheItem, LruCache, is_expired, lru_delete, cleanup, cleanup_over}
use ling_framework.Cache.Recency.{Entries}
use ling_framework.Cache.Refines.{Represents, lru_delete-Represents}

module _ {V : Type 0} where
  -- The entries that have not expired, in their order.
  pub live_part : Time → Entries V → Entries V
  live_part now [] = []
  live_part now ((k, item) ∷ l) =
      let rest = live_part now l in if is_expired now item then rest else (k, item) ∷ rest

  -- The list without the keys of a set.
  sift : (Str → Bool) → Entries V → Entries V
  sift p [] = []
  sift p ((k, item) ∷ l) = let rest = sift p l in if p k then rest else (k, item) ∷ rest

  -- The keys that the loop over `es` deletes.
  abbrev dead : Time → Entries V → Str → Bool
  dead now [] k = false
  dead now ((j, item) ∷ es) k = (is_expired now item && j == k) || dead now es k

  abbrev dead_value : Time → Option (CacheItem V) → Bool
  dead_value now none = false
  dead_value now (some item) = is_expired now item

  purge : Time → Entries V → Entries V → Entries V
  purge now [] l = l
  purge now ((k, item) ∷ es) l = purge now es (if is_expired now item then delete l k else l)

  delete-sift :
      (p : Str → Bool) (k : Str) (l : Entries V) → sift p (delete l k) ≡ sift (λ j. k == j || p j) l
  unfolding sift delete
  delete-sift p k [] = refl
  delete-sift p k ((j, item) ∷ l) =
      ground (arith, delete-sift p k l, str_comparable.same_iff k j, str_comparable.same_iff j k)

  sift-nothing : (l : Entries V) → sift (λ k. false) l ≡ l
  unfolding sift
  sift-nothing [] = refl
  sift-nothing (e ∷ l) = ground (arith, sift-nothing l)

  purge-sift : (now : Time) (es l : Entries V) → purge now es l ≡ sift (dead now es) l
  unfolding purge
  purge-sift now [] l = sym (sift-nothing l)
  purge-sift now ((k, item) ∷ es) l =
      purged (is_expired now item) (purge-sift now es l)
        (purge-sift now es (delete l k) ∙ delete-sift (dead now es) k l)
    where
      purged :
          (b : Bool)
          → purge now es l ≡ sift (dead now es) l
          → purge now es (delete l k) ≡ sift (λ j. k == j || dead now es j) l
          → purge now es (if b then delete l k else l)
            ≡ sift (λ j. (b && k == j) || dead now es j) l
      purged true kept gone = gone
      purged false kept gone = kept

  dead-fetch :
      (now : Time) (es : Entries V) (k : Str)
      → Distinct (keys es)
      → dead now es k ≡ dead_value now (fetch es k)
  unfolding fetch
  dead-fetch now [] k d = refl
  dead-fetch now ((j, item) ∷ es) k d =
      ground (arith, dead-fetch now es k d.1, member-keys es k, str_comparable.same_iff j k, d.0)

  sift-live :
      (now : Time) (p : Str → Bool) (l : Entries V)
      → Distinct (keys l)
      → ((k : Str) → member k (keys l) ≡ true → p k ≡ dead_value now (fetch l k))
      → sift p l ≡ live_part now l
  unfolding sift live_part fetch
  sift-live now p [] d h = refl
  sift-live now p ((k, item) ∷ l) d h =
      let head : p k ≡ is_expired now item = ground (arith, h k, ==-refl k) in
      let tail : sift p l ≡ live_part now l =
        sift-live now p l d.1 (λ j m. ground (arith, h j, str_comparable.same_iff k j, d.0)) in
      rw (head, tail)

  cleanup_over-Represents :
      (now : Time) (es : Entries V) (c : LruCache V) (l : Entries V)
      → Represents c l
      → Represents (cleanup_over now es c) (purge now es l)
  unfolding cleanup_over purge
  cleanup_over-Represents now [] c l r = r
  cleanup_over-Represents now ((k, item) ∷ es) c l r = elim (Bool-cases (is_expired now item)) [
    | inl old ↦ rw old (
        cleanup_over-Represents now es (lru_delete k c) (delete l k)
          (lru_delete-Represents k c l r))
    | inr live ↦ rw live (cleanup_over-Represents now es c l r)
  ]

  -- A cleanup of a cache that stands for a recency list leaves one that stands for the entries of
  -- this list that have not expired, in the same order.
  pub cleanup-Represents :
      (now : Time) (c : LruCache V) (l : Entries V)
      → Represents c l
      → Represents (cleanup now c) (live_part now l)
  unfolding cleanup
  cleanup-Represents now c l r =
      subst (Represents (cleanup_over now c.items c))
        (purge-sift now c.items l
          ∙ sift-live now (dead now c.items) l r.distinct
              (λ k m. dead-fetch now c.items k r.distinct_items ∙ ap (dead_value now) (r.same k)))
        (cleanup_over-Represents now c.items c l r)
