-- ===== src/Cache.antt =====
-- The local cache of pkg/cache/local.go. A method takes the instant at which it reads the clock and
-- returns its results and the new cache. `F` are the float64 values and `to_int64` their conversion,
-- `O` all other values that a cache may hold. The methods of localCache only wrap those of the
-- lruCache that it owns, so one record stands for both; the cleanup goroutine is the method
-- `cleanup`, called at some instants.
pub mod Recency
pub mod Refines
pub mod Methods
pub mod Calls
pub mod Cleanup
pub mod Reads
mod Tests
use ling_framework.Base.{
  ℕ, zero, suc, ◌+◌, Bool, true, false, ◌&&◌, not, Option, none, some, List, [], ◌∷◌, ◌++◌, Str,
  str_comparable, length, member, if◌then◌else◌,
}
use ling_framework.Base.Dict.{Dict, fetch, store, delete, is_some}
use ling_framework.Base.Dict.Laws.{remove_first}
use ling_framework.Base.Int.{ℤ, pos, negsuc, leb_ℤ, ltb_ℤ, ◌+ℤ◌, ◌-ℤ◌, wrap64}
use ling_framework.Base.Time.{Time, Duration, is_zero, after, add_time, sub_time}

-- interface{}: the dynamic types that Increment tells apart.
pub data Value (F O : Type 0) : Type 0 where
  int int64 : ℤ → Value F O
  float64 : F → Value F O
  other : O → Value F O

pub record CacheItem (V : Type 0) : Type 0 where
  pub value : V
  pub expiration : Time
  pub last_access : Time

pub record LruCache (V : Type 0) : Type 0 where
  pub max_size : ℤ
  pub default_expiration : Duration
  pub items : Dict Str (CacheItem V)
  pub order : List Str

-- NewLocalCache
abbrev pub new_local_cache : {V : Type 0} → ℤ → Duration → LruCache V
new_local_cache max_size default_expiration = record {
  max_size = max_size;
  default_expiration = default_expiration;
  items = [];
  order = [];
}

-- !item.expiration.IsZero() && now.After(item.expiration)
abbrev pub is_expired : {V : Type 0} → Time → CacheItem V → Bool
is_expired now item = not (is_zero item.expiration) && after now item.expiration

module _ {V : Type 0} where
  -- lruCache.updateAccessOrder
  unfoldable pub update_access_order : Str → LruCache V → LruCache V
  update_access_order key c =
      if member key c.order then record c { order = remove_first key c.order ++ key ∷ [] } else c

  -- lruCache.get
  unfoldable pub lru_get : Str → LruCache V → Option (CacheItem V) × LruCache V
  lru_get key c = elim (fetch c.items key) [
    | none ↦ (none, c)
    | some item ↦ (some item, update_access_order key c)
  ]

  -- lruCache.delete
  unfoldable pub lru_delete : Str → LruCache V → LruCache V
  lru_delete key c = record c { items = delete c.items key; order = remove_first key c.order }

  abbrev pub evict_first : List Str → LruCache V → LruCache V
  evict_first [] c = c
  evict_first (oldest ∷ rest) c = record c { items = delete c.items oldest; order = rest }

  -- lruCache.evictLRU
  unfoldable pub evict_lru : LruCache V → LruCache V
  evict_lru c = evict_first c.order c

  -- The two tests of lruCache.set.
  abbrev pub drop_old : Str → LruCache V → LruCache V
  drop_old key c = if is_some (fetch c.items key) then lru_delete key c else c

  abbrev pub make_room : LruCache V → LruCache V
  make_room c = if leb_ℤ c.max_size (pos (length c.items)) then evict_lru c else c

  -- lruCache.set
  unfoldable pub lru_set : Str → CacheItem V → LruCache V → LruCache V
  lru_set key item c =
      let c' = make_room (drop_old key c) in
      record c' { items = store c'.items key item; order = c'.order ++ key ∷ [] }

  -- localCache.Clear
  unfoldable pub clear : LruCache V → LruCache V
  clear c = record c { items = []; order = [] }

  -- The shared pointer to an item: its last access is set in place.
  abbrev pub touch : Time → Str → CacheItem V → LruCache V → LruCache V
  touch now key item c = record c { items = store c.items key (record item { last_access = now }) }

  -- The test of expiry after lruCache.get.
  abbrev pub judge :
      Time → Str → Option (CacheItem V) × LruCache V → Option (CacheItem V) × LruCache V
  judge now key (none, c) = (none, c)
  judge now key (some item, c) =
      if is_expired now item then (none, lru_delete key c) else (some item, c)

  -- lruCache.get and this test, which Get, Exists, GetWithTTL and Increment begin with.
  unfoldable pub get_live : Time → Str → LruCache V → Option (CacheItem V) × LruCache V
  get_live now key c = judge now key (lru_get key c)

  abbrev pub finish_get : Time → Str → Option (CacheItem V) × LruCache V → Option V × LruCache V
  finish_get now key (none, c) = (none, c)
  finish_get now key (some item, c) = (some item.value, touch now key item c)

  -- localCache.Get
  unfoldable pub get : Time → Str → LruCache V → Option V × LruCache V
  get now key c = finish_get now key (get_live now key c)

  -- localCache.Exists
  unfoldable pub exists : Time → Str → LruCache V → Bool × LruCache V
  exists now key c = (is_some (get_live now key c).0, (get_live now key c).1)

  abbrev pub ttl_of : Time → CacheItem V → Duration
  ttl_of now item =
      if is_zero item.expiration
      then pos 0
      else (let ttl = sub_time item.expiration now in if ltb_ℤ ttl (pos 0) then pos 0 else ttl)

  abbrev pub finish_ttl :
      Time → Str → Option (CacheItem V) × LruCache V → Option (V × Duration) × LruCache V
  finish_ttl now key (none, c) = (none, c)
  finish_ttl now key (some item, c) = (some (item.value, ttl_of now item), touch now key item c)

  -- localCache.GetWithTTL
  unfoldable pub get_with_ttl : Time → Str → LruCache V → Option (V × Duration) × LruCache V
  get_with_ttl now key c = finish_ttl now key (get_live now key c)

  -- localCache.Set
  unfoldable pub set : Time → Str → V → Duration → LruCache V → LruCache V
  set now key value expiration c =
      lru_set key
        (record {
          value = value;
          expiration = if ltb_ℤ (pos 0) expiration then add_time now expiration else 0;
          last_access = now;
        })
        c

  -- localCache.GetMulti, SetMulti and DeleteMulti; `entries` is the map in the order of the range.
  unfoldable pub get_multi : Time → List Str → LruCache V → Dict Str V × LruCache V
  get_multi now [] c = ([], c)
  get_multi now (key ∷ ks) c =
      let (found, c') = get now key c in
      let (result, c'') = get_multi now ks c' in
      (elim found [ none ↦ result | some value ↦ store result key value ], c'')

  unfoldable pub set_multi : Time → Dict Str V → Duration → LruCache V → LruCache V
  set_multi now [] expiration c = c
  set_multi now ((key, value) ∷ entries) expiration c =
      set_multi now entries expiration (set now key value expiration c)

  unfoldable pub delete_multi : List Str → LruCache V → LruCache V
  delete_multi [] c = c
  delete_multi (key ∷ ks) c = delete_multi ks (lru_delete key c)

  -- The loop of localCache.cleanup over the entries of the map.
  unfoldable pub cleanup_over : Time → Dict Str (CacheItem V) → LruCache V → LruCache V
  cleanup_over now [] c = c
  cleanup_over now ((key, item) ∷ entries) c =
      cleanup_over now entries (if is_expired now item then lru_delete key c else c)

  -- localCache.cleanup
  unfoldable pub cleanup : Time → LruCache V → LruCache V
  cleanup now c = cleanup_over now c.items c

module _ {F O : Type 0} (to_int64 : F → ℤ) where
  -- The type switch of Increment: the number that it returns, and the value that it stores.
  unfoldable pub add_to : Value F O → ℤ → ℤ × Value F O
  add_to (int v) by = let n = wrap64 (v +ℤ by) in (n, int64 n)
  add_to (int64 v) by = let n = wrap64 (v +ℤ by) in (n, int64 n)
  add_to (float64 v) by = let n = wrap64 (to_int64 v +ℤ by) in (n, int64 n)
  add_to (other v) by = (by, int64 by)

  abbrev pub start_item : Time → ℤ → LruCache (Value F O) → CacheItem (Value F O)
  start_item now by c = record {
    value = int64 by;
    expiration = add_time now c.default_expiration;
    last_access = now;
  }

  abbrev pub finish_increment :
      Time
      → Str
      → ℤ
      → Option (CacheItem (Value F O)) × LruCache (Value F O)
      → ℤ × LruCache (Value F O)
  finish_increment now key by (none, c) = (by, lru_set key (start_item now by c) c)
  finish_increment now key by (some item, c) =
      let (n, value) = add_to item.value by in (n, touch now key (record item { value = value }) c)

  -- localCache.Increment
  unfoldable pub increment : Time → Str → ℤ → LruCache (Value F O) → ℤ × LruCache (Value F O)
  increment now key by c = finish_increment now key by (get_live now key c)

  -- localCache.Decrement
  unfoldable pub decrement : Time → Str → ℤ → LruCache (Value F O) → ℤ × LruCache (Value F O)
  decrement now key by c = increment now key (wrap64 (pos 0 -ℤ by)) c
