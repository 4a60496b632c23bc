-- ===== src/Cache/Reads.antt =====
-- What a user of localCache reads (pkg/cache/local.go): expiry, eviction, Increment and cleanup.
use ling_framework.Base.{
  ℕ, ◌+◌, ◌<◌, ◌≡◌, ◌≢◌, refl, ap, sym, ◌∙◌, Bool, false, ◌&&◌, Option, none, some, List, [], ◌∷◌,
  arith, Str, str_comparable, length, Distinct, ltb, ◌==◌, ==-refl, if◌then◌else◌,
}
use ling_framework.Base.Dict.{
  keys, length-keys, fetch, delete, fetch-store, fetch-delete, member-keys,
}
use ling_framework.Base.Dict.Laws
use ling_framework.Base.Dict.Laws.{remove_first, add_last}
use ling_framework.Base.Int.{ℤ, pos, leb_ℤ, ltb_ℤ}
use ling_framework.Base.Time.{Time, Duration, add_time}
use ling_framework.Cache.{
  Value, int64, CacheItem, LruCache, is_expired, lru_get, lru_set, get_live, get, set, increment,
  start_item,
}
use ling_framework.Cache.Recency.{Entries, with_room}
use ling_framework.Cache.Refines.{Represents, lru_set-Represents, still_absent}

-- The key that Set evicts from a full cache: the first in the order.
abbrev pub is_first : Str → List Str → Bool
is_first j [] = false
is_first j (k ∷ ks) = k == j

abbrev pub evicts : ℤ → Str → List Str → Bool
evicts max_size j order = leb_ℤ max_size (pos (length order)) && is_first j order

module _ {V : Type 0} where
  -- What Get returns, from the entry that the map holds.
  abbrev pub value_at : Time → Option (CacheItem V) → Option V
  value_at now none = none
  value_at now (some item) = if is_expired now item then none else some item.value

  pub get-value_at :
      (now : Time) (key : Str) (c : LruCache V)
      → (get now key c).0 ≡ value_at now (fetch c.items key)
  unfolding get get_live lru_get
  get-value_at now key c = ground arith

  pub fetch-lru_set :
      (key : Str) (item : CacheItem V) (c : LruCache V)
      → fetch (lru_set key item c).items key ≡ some item
  unfolding lru_set
  fetch-lru_set key item c = rw (fetch-store, ==-refl key)

  -- Get after Set of the same key, with a positive expiration or with 0 (none): it returns the
  -- value up to and including the instant at which the entry expires, and nothing afterwards.
  pub get-set :
      (t t' : Time) (key : Str) (v : V) (n : ℕ) (c : LruCache V)
      → (get t' key (set t key v (pos n) c)).0
        ≡ (if ltb 0 n && ltb (t + n) t' then none else some v)
  unfolding set
  get-set t t' key v n c = rw (get-value_at, fetch-lru_set) (ground arith)

  fetch-with_room :
      (max_size : ℤ) (l : Entries V) (j : Str)
      → Distinct (keys l)
      → fetch (with_room max_size l) j ≡ (if evicts max_size j (keys l) then none else fetch l j)
  unfolding fetch
  fetch-with_room max_size [] j d = ground arith
  fetch-with_room max_size ((k, item) ∷ l) j d =
      ground (arith, length-keys l, member-keys l j, str_comparable.same_iff k j, d.0)

  -- Set leaves the entry of every other key as it is, with one exception: if, without the key
  -- that is set, at least MaxSize keys are in the order, the entry of the first of them, the least
  -- recently used one, goes.
  pub set-keeps :
      (t : Time) (key j : Str) (v : V) (d : Duration) (c : LruCache V) (l : Entries V)
      → Represents c l
      → key ≢ j
      → fetch (set t key v d c).items j
        ≡ (if evicts c.max_size j (remove_first key c.order) then none else fetch c.items j)
  unfolding set
  set-keeps t key j v d c l r ne =
      let item : CacheItem V = record {
        value = v;
        expiration = if ltb_ℤ (pos 0) d then add_time t d else 0;
        last_access = t;
      } in
      let m = delete l key in
      let absent : fetch m key ≡ none = rw (fetch-delete, ==-refl key) in
      let order : remove_first key c.order ≡ keys m =
        ap (remove_first key) r.order ∙ sym (Laws.keys-delete l key r.distinct) in
      rw order (
        ground (
          arith,
          (lru_set-Represents key item c l r).same j,
          Laws.fetch-add_last (with_room c.max_size m) key j item
              (still_absent c.max_size key m absent),
          fetch-with_room c.max_size m j (Laws.delete-Distinct l key r.distinct),
          fetch-delete l key j,
          r.same j,
          str_comparable.same_iff key j,
        ))

module _ {F O : Type 0} (to_int64 : F → ℤ) where
  increment-new :
      (t : Time) (key : Str) (by : ℤ) (c : LruCache (Value F O))
      → fetch c.items key ≡ none
      → increment to_int64 t key by c ≡ (by, lru_set key (start_item to_int64 t by c) c)
  unfolding increment get_live lru_get
  increment-new t key by c h = rw (h, lru_get) refl

  -- Increment of a key that the cache does not hold stores the given number, and the entry expires
  -- DefaultExpiration later even where this is 0: with 0, every Get at a later instant than the
  -- Increment finds nothing. (A 0 given to Set means that the entry never expires.)
  pub get-increment_new :
      (t t' : Time) (key : Str) (by : ℤ) (n : ℕ) (c : LruCache (Value F O))
      → fetch c.items key ≡ none
      → c.default_expiration ≡ pos n
      → 0 < t
      → (get t' key (increment to_int64 t key by c).1).0
        ≡ (if ltb (t + n) t' then none else some (int64 by))
  get-increment_new t t' key by n c new life positive =
      rw (increment-new t key by c new, get-value_at, fetch-lru_set) (ground arith)
