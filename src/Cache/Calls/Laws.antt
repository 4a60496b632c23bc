-- ===== src/Cache/Calls/Laws.antt =====
-- Each call of a localCache (pkg/cache/local.go) answers as the recency list does, and leaves a
-- cache that represents the list that it leaves.
use ling_framework.Base.{
  ◌≡◌, refl, sym, ap₂, subst, Option, none, some, List, [], ◌∷◌, Str, str_comparable,
}
use ling_framework.Base.Dict.{fetch}
use ling_framework.Base.Int.{ℤ}
use ling_framework.Base.Time.{Time, Duration, add_time}
use ling_framework.Cache.{
  Value, int64, CacheItem, LruCache, new_local_cache, lru_set, touch, get_live, finish_get,
  finish_ttl, finish_increment, get, exists, get_with_ttl, ttl_of, set, clear, add_to, start_item,
  increment,
}
use ling_framework.Cache.Recency.{Entries, set_entry, live_entry, touch_entry}
use ling_framework.Cache.Refines.{Represents, lru_delete-Represents, lru_set-Represents}
use ling_framework.Cache.Methods.{
  Settings, touch-Represents, get_live-Represents, live-fetch, lru_delete-Settings,
  lru_set-Settings, get_live-Settings,
}
use ling_framework.Cache.Calls.{
  Call, call_get, call_exists, call_get_with_ttl, call_set, call_increment, call_delete, call_clear,
  Reply, found, with_ttl, number, answer, answers, reply_of, touched, new_item, expected_increment,
  expected, expect_all,
}

module _ {F O : Type 0} (to_int64 : F → ℤ) (size : ℤ) (life : Duration) where
  pub record Holds (c : LruCache (Value F O)) (l : Entries (Value F O)) : Type 0 where
    pub list : Represents c l
    pub settings : Settings size life c

  abbrev pub Follows : Reply F O × LruCache (Value F O) → Reply F O × Entries (Value F O) → Type 0
  Follows a b = (a.0 ≡ b.0) × Holds a.1 b.1

  abbrev pub Kept : Str → Option (CacheItem (Value F O)) → Entries (Value F O) → Type 0
  Kept k none l = Unit
  Kept k (some item) l = fetch l k ≡ some item

  pub live-Kept :
      (t : Time) (k : Str) (l : Entries (Value F O))
      → Kept k (live_entry t k l).0 (live_entry t k l).1
  live-Kept t k l = Kept_of_found (live_entry t k l).0 (live_entry t k l).1 (live-fetch t k l)
    where
      Kept_of_found :
          (o : Option (CacheItem (Value F O))) (m : Entries (Value F O))
          → ((item : CacheItem (Value F O)) → o ≡ some item → fetch m k ≡ some item)
          → Kept k o m
      Kept_of_found none m f = tt
      Kept_of_found (some item) m f = f item refl

  touch-Holds :
      (t : Time) (k : Str) (item old : CacheItem (Value F O)) (c : LruCache (Value F O))
      → (l : Entries (Value F O)) → Holds c l
      → fetch l k ≡ some old
      → Holds (touch t k item c) (touch_entry t k item l)
  touch-Holds t k item old c l h kept = record {
    list = touch-Represents t k item old c l h.list kept;
    settings = h.settings;
  }

  set-Holds :
      (k : Str) (item : CacheItem (Value F O)) (c : LruCache (Value F O))
      → (l : Entries (Value F O)) → Holds c l
      → Holds (lru_set k item c) (set_entry size k item l)
  set-Holds k item c l h = record {
    list =
        subst (λ m. Represents (lru_set k item c) (set_entry m k item l)) h.settings.0
          (lru_set-Represents k item c l h.list);
    settings = lru_set-Settings size life k item c h.settings;
  }

  pub live-Holds :
      (t : Time) (k : Str) (c : LruCache (Value F O)) (l : Entries (Value F O))
      → Holds c l
      → ((get_live t k c).0 ≡ (live_entry t k l).0) × Holds (get_live t k c).1 (live_entry t k l).1
  live-Holds t k c l h =
      let (same, r) = get_live-Represents t k c l h.list in
      (same, record { list = r; settings = get_live-Settings size life t k c h.settings })

  get-Follows :
      (t : Time) (k : Str) (o : Option (CacheItem (Value F O))) (c : LruCache (Value F O))
      → (l : Entries (Value F O)) → Holds c l
      → Kept k o l
      → Follows
          (let (r, c') = finish_get t k (o, c) in (found r, c'))
          (found (reply_of none (λ item. some item.value) o), touched t k o l)
  get-Follows t k none c l h kept = (refl, h)
  get-Follows t k (some item) c l h kept = (refl, touch-Holds t k item item c l h kept)

  ttl-Follows :
      (t : Time) (k : Str) (o : Option (CacheItem (Value F O))) (c : LruCache (Value F O))
      → (l : Entries (Value F O)) → Holds c l
      → Kept k o l
      → Follows
          (let (r, c') = finish_ttl t k (o, c) in (with_ttl r, c'))
          (with_ttl (reply_of none (λ item. some (item.value, ttl_of t item)) o), touched t k o l)
  ttl-Follows t k none c l h kept = (refl, h)
  ttl-Follows t k (some item) c l h kept = (refl, touch-Holds t k item item c l h kept)

  increment-Follows :
      (t : Time) (k : Str) (by : ℤ) (o : Option (CacheItem (Value F O)))
      → (c : LruCache (Value F O)) (l : Entries (Value F O)) → Holds c l
      → Kept k o l
      → Follows
          (let (n, c') = finish_increment to_int64 t k by (o, c) in (number n, c'))
          (expected_increment to_int64 size life t k by o l)
  increment-Follows t k by none c l h kept = (
    refl,
    subst
        (λ d.
          Holds (lru_set k (new_item t (int64 by) (add_time t c.default_expiration)) c)
            (set_entry size k (new_item t (int64 by) (add_time t d)) l))
        h.settings.1 (set-Holds k (start_item to_int64 t by c) c l h),
  )
  increment-Follows t k by (some item) c l h kept = (
    refl,
    touch-Holds t k (record item { value = (add_to to_int64 item.value by).1 }) item c l h kept,
  )

  pub answer-Follows :
      (x : Call F O) (c : LruCache (Value F O)) (l : Entries (Value F O))
      → Holds c l
      → Follows (answer to_int64 x c) (expected to_int64 size life x l)
  unfolding get exists get_with_ttl set increment clear
  answer-Follows (call_get t k) c l h =
      let (same, kept) = live-Holds t k c l h in
      subst
        (λ o.
          Follows (let (r, c') = finish_get t k (o, (get_live t k c).1) in (found r, c'))
            (expected to_int64 size life (call_get t k) l))
        (sym same)
        (get-Follows t k (live_entry t k l).0 (get_live t k c).1 (live_entry t k l).1 kept
          (live-Kept t k l))
  answer-Follows (call_get_with_ttl t k) c l h =
      let (same, kept) = live-Holds t k c l h in
      subst
        (λ o.
          Follows (let (r, c') = finish_ttl t k (o, (get_live t k c).1) in (with_ttl r, c'))
            (expected to_int64 size life (call_get_with_ttl t k) l))
        (sym same)
        (ttl-Follows t k (live_entry t k l).0 (get_live t k c).1 (live_entry t k l).1 kept
          (live-Kept t k l))
  answer-Follows (call_increment t k by) c l h =
      let (same, kept) = live-Holds t k c l h in
      subst
        (λ o.
          Follows
            (let (n, c') = finish_increment to_int64 t k by (o, (get_live t k c).1) in
              (number n, c'))
            (expected to_int64 size life (call_increment t k by) l))
        (sym same)
        (increment-Follows t k by (live_entry t k l).0 (get_live t k c).1 (live_entry t k l).1 kept
          (live-Kept t k l))
  answer-Follows (call_exists t k) c l h =
      let (same, kept) = live-Holds t k c l h in (rw same, kept)
  answer-Follows (call_set t k v d) c l h = (refl, set-Holds k _ c l h)
  answer-Follows (call_delete k) c l h = (
    refl,
    record {
      list = lru_delete-Represents k c l h.list;
      settings = lru_delete-Settings size life k c h.settings;
    },
  )
  answer-Follows call_clear c l h = (
    refl,
    record {
      list = record {
        order = refl;
        same = λ k. refl;
        distinct = tt;
        distinct_items = tt;
        size = refl;
      };
      settings = h.settings;
    },
  )

  answers-Follow :
      (xs : List (Call F O)) (c : LruCache (Value F O)) (l : Entries (Value F O))
      → Holds c l
      → ((answers to_int64 xs c).0 ≡ (expect_all to_int64 size life xs l).0)
        × Holds (answers to_int64 xs c).1 (expect_all to_int64 size life xs l).1
  unfolding answers expect_all
  answers-Follow [] c l h = (refl, h)
  answers-Follow (x ∷ xs) c l h =
      let (same, held) = answer-Follows x c l h in
      let (same', held') =
        answers-Follow xs (answer to_int64 x c).1 (expected to_int64 size life x l).1 held in
      (ap₂ (◌∷◌) same same', held')

  pub start-Holds : Holds (new_local_cache size life) []
  start-Holds = record {
    list = record {
      order = refl;
      same = λ k. refl;
      distinct = tt;
      distinct_items = tt;
      size = refl;
    };
    settings = (refl, refl);
  }

  -- A new local cache answers every sequence of calls of Get, Exists, GetWithTTL, Set, Increment,
  -- Delete and Clear, at any instants, as a list of entries does that is kept in the order of
  -- their last use: a use moves an entry to the end, an entry found expired is dropped, and Set
  -- drops the entry of its key and then, if MaxSize entries are left, the first one. The map and
  -- the slice of the cache stand for this list to the end.
  pub answers-new_local_cache :
      (xs : List (Call F O))
      → ((answers to_int64 xs (new_local_cache size life)).0
          ≡ (expect_all to_int64 size life xs []).0)
        × Represents
            (answers to_int64 xs (new_local_cache size life)).1
            (expect_all to_int64 size life xs []).1
  answers-new_local_cache xs =
      let (same, held) = answers-Follow xs (new_local_cache size life) [] start-Holds in
      (same, held.list)
