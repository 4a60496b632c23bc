-- ===== src/Guard/Local.antt =====
-- The local cache of pkg/cache/local.go is a cache of the guards of pkg/utils/security.
use ling_framework.Base.{
  ◌+◌, ◌≤◌, ◌<◌, ◌≡◌, refl, ap, Option, none, some, arith, Str, str_comparable, ltb, ==-refl,
  if◌then◌else◌,
}
use ling_framework.Base.Dict.{fetch, fetch-store, fetch-delete}
use ling_framework.Base.Int.{pos}
use ling_framework.Base.Time.{Time}
use ling_framework.Cache.{
  CacheItem, LruCache, get, set, get_live, lru_get, lru_delete, finish_get, judge,
  update_access_order,
}
use ling_framework.Cache.Reads.{value_at, get-value_at, fetch-lru_set}
use ling_framework.Guard.{CacheOps}

module _ {V : Type 0} where
  abbrev pub peek_local : Time → Str → LruCache V → Option V
  peek_local now key c = value_at now (fetch c.items key)

  get_found-peek_local :
      (now t : Time) (j key : Str) (c : LruCache V) (o : Option (CacheItem V))
      → now ≤ t
      → fetch c.items key ≡ o
      → peek_local t j
          (finish_get now key (
            judge now key
              (elim o [ none ↦ (none, c) | some item ↦ (some item, update_access_order key c) ]))).1
        ≡ peek_local t j c
  unfolding update_access_order lru_delete
  get_found-peek_local now t j key c none le h = refl
  get_found-peek_local now t j key c (some item) le h = ground (
    arith,
    fetch-delete c.items key j,
    fetch-store c.items key j (record item { last_access = now }),
    str_comparable.same_iff key j,
    ap (λ x. fetch c.items x),
  )

  -- A Get changes the last access of its entry, or removes an expired one.
  pub peek_local-get :
      (now t : Time) (j key : Str) (c : LruCache V)
      → now ≤ t
      → peek_local t j (get now key c).1 ≡ peek_local t j c
  unfolding get get_live lru_get
  peek_local-get now t j key c le = get_found-peek_local now t j key c (fetch c.items key) le refl

  pub peek_local-set :
      (now t life : Time) (key : Str) (v : V) (c : LruCache V)
      → 0 < life
      → peek_local t key (set now key v (pos life) c)
        ≡ (if ltb (now + life) t then none else some v)
  unfolding set
  peek_local-set now t life key v c positive = rw fetch-lru_set (ground arith)

  pub peek_local-delete :
      (t : Time) (key : Str) (c : LruCache V) → peek_local t key (lru_delete key c) ≡ none
  unfolding lru_delete
  peek_local-delete t key c = rw (fetch-delete, ==-refl key) refl

  abbrev pub local_cache : CacheOps (LruCache V) V
  local_cache = record {
    get = get;
    set = set;
    delete = lru_delete;
    peek = peek_local;
    get-peek = get-value_at;
    peek-get = peek_local-get;
    peek-set = peek_local-set;
    peek-delete = peek_local-delete;
  }
