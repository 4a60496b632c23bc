-- ===== src/Cache/Methods.antt =====
-- The methods of localCache (pkg/cache/local.go) on a recency list, from those of lruCache.
use ling_framework.Base.{
  ◌≡◌, refl, sym, ap, subst, ◌∙◌, inl, inr, Option, none, some, arith, Str, str_comparable,
  Bool-cases, Option-cases, ==-refl,
}
use ling_framework.Base.Dict.{fetch, delete, is_some, fetch-store, fetch-delete}
use ling_framework.Base.Dict.Laws
use ling_framework.Base.Dict.Laws.{add_last}
use ling_framework.Base.Int.{ℤ}
use ling_framework.Base.Time.{Time, Duration}
use ling_framework.Cache.{
  CacheItem, LruCache, is_expired, update_access_order, lru_get, lru_delete, evict_lru, lru_set,
  touch, judge, get_live,
}
use ling_framework.Cache.Recency.{Entries, use_entry, judge_entry, live_entry, touch_entry}
use ling_framework.Cache.Refines.{Represents, lru_delete-Represents, use-Represents}

module _ {V : Type 0} where
  pub touch-Represents :
      (now : Time) (key : Str) (item old : CacheItem V) (c : LruCache V) (l : Entries V)
      → Represents c l
      → fetch l key ≡ some old
      → Represents (touch now key item c) (touch_entry now key item l)
  touch-Represents now key item old c l r found =
      let fresh = record item { last_access = now } in
      record {
        order = r.order ∙ sym (Laws.keys-store l key fresh (ap is_some found));
        same = λ k. rw (fetch-store, fetch-store, r.same k);
        distinct = Laws.store-Distinct l key fresh r.distinct;
        distinct_items = Laws.store-Distinct c.items key fresh r.distinct_items;
        size = ground (
          arith,
          r.size,
          r.same key,
          Laws.length-store c.items key fresh,
          Laws.length-store l key fresh,
        );
      }

  lru_get-miss : (key : Str) (c : LruCache V) → fetch c.items key ≡ none → lru_get key c ≡ (none, c)
  unfolding lru_get
  lru_get-miss key c h = rw (h, lru_get) refl

  lru_get-hit :
      (key : Str) (item : CacheItem V) (c : LruCache V)
      → fetch c.items key ≡ some item
      → lru_get key c ≡ (some item, update_access_order key c)
  unfolding lru_get
  lru_get-hit key item c h = rw (h, lru_get) refl

  forget-use :
      (key : Str) (item : CacheItem V) (l : Entries V)
      → delete (use_entry key item l) key ≡ delete l key
  forget-use key item l =
      Laws.delete-add_last (delete l key) key item
      ∙ Laws.delete_absent (delete l key) key (rw (fetch-delete, ==-refl key))

  abbrev pub Agrees : {R : Type 0} → R × LruCache V → R × Entries V → Type 0
  Agrees a b = (a.0 ≡ b.0) × Represents a.1 b.1

  judge-Represents :
      (now : Time) (key : Str) (item : CacheItem V) (c : LruCache V) (l : Entries V)
      → Represents c l
      → fetch l key ≡ some item
      → Agrees
          (judge now key (some item, update_access_order key c))
          (judge_entry now key l (some item))
  judge-Represents now key item c l r hit = elim (Bool-cases (is_expired now item)) [
    | inl old ↦ rw old (
      refl,
      subst (Represents (lru_delete key (update_access_order key c))) (forget-use key item l) (
          lru_delete-Represents key (update_access_order key c) (use_entry key item l)
            (use-Represents key item c l r hit)),
    )
    | inr live ↦ rw live (refl, use-Represents key item c l r hit)
  ]

  pub get_live-Represents :
      (now : Time) (key : Str) (c : LruCache V) (l : Entries V)
      → Represents c l
      → Agrees (get_live now key c) (live_entry now key l)
  unfolding get_live
  get_live-Represents now key c l r = elim (Option-cases (fetch l key)) [
    | inl miss ↦ rw (lru_get-miss key c (r.same key ∙ miss), miss) (refl, r)
    | inr (item, hit) ↦
        rw (lru_get-hit key item c (r.same key ∙ hit), hit)
          (judge-Represents now key item c l r hit)
  ]

  -- What the recency list says is found is an entry of the list that it leaves.
  pub live-fetch :
      (now : Time) (key : Str) (l : Entries V) (item : CacheItem V)
      → (live_entry now key l).0 ≡ some item
      → fetch (live_entry now key l).1 key ≡ some item
  live-fetch now key l item h = go (fetch l key) h
    where
      go :
          (o : Option (CacheItem V))
          → (judge_entry now key l o).0 ≡ some item
          → fetch (judge_entry now key l o).1 key ≡ some item
      go none e = cc
      go (some found) e = ground (
        arith,
        Laws.fetch-add_last (delete l key) key key found (rw (fetch-delete, ==-refl key)),
        ==-refl key,
      )

  -- The settings that no method changes.
  abbrev pub Settings : ℤ → Duration → LruCache V → Type 0
  Settings size life c = (c.max_size ≡ size) × (c.default_expiration ≡ life)

  pub lru_delete-Settings :
      (size : ℤ) (life : Duration) (key : Str) (c : LruCache V)
      → Settings size life c
      → Settings size life (lru_delete key c)
  unfolding lru_delete
  lru_delete-Settings size life key c h = h

  pub lru_set-Settings :
      (size : ℤ) (life : Duration) (key : Str) (item : CacheItem V) (c : LruCache V)
      → Settings size life c
      → Settings size life (lru_set key item c)
  unfolding lru_set lru_delete evict_lru
  lru_set-Settings size life key item c h = ground arith

  pub get_live-Settings :
      (size : ℤ) (life : Duration) (now : Time) (key : Str) (c : LruCache V)
      → Settings size life c
      → Settings size life (get_live now key c).1
  unfolding get_live lru_get lru_delete update_access_order
  get_live-Settings size life now key c h = ground arith
