-- ===== src/Cache/Calls/Bound.antt =====
-- The number of entries of a localCache (pkg/cache/local.go).
use ling_framework.Base.{
  ◌+◌, ◌≤◌, ◌≡◌, refl, Option, none, some, List, [], ◌∷◌, arith, Str, str_comparable, length, max,
  Distinct,
}
use ling_framework.Base.Dict.{keys, fetch, delete}
use ling_framework.Base.Dict.Laws as DictLaws
use ling_framework.Base.Int.{ℤ, pos_part}
use ling_framework.Base.Time.{Time, Duration}
use ling_framework.Cache.{Value, CacheItem, LruCache, new_local_cache, add_to}
use ling_framework.Cache.Recency.{
  Entries, with_room, set_entry, judge_entry, live_entry, touch_entry,
}
use ling_framework.Cache.Calls.{
  Call, call_get, call_exists, call_get_with_ttl, call_set, call_increment, call_delete, call_clear,
  answer, answers, touched, expected_increment, expected,
}
use ling_framework.Cache.Calls.Laws.{Holds, start-Holds, answer-Follows, live-Kept, Kept}

module _ {V : Type 0} where
  length-with_room :
      (size : ℤ) (l : Entries V)
      → length l ≤ max 1 (pos_part size)
      → length (with_room size l) + 1 ≤ max 1 (pos_part size)
  length-with_room size [] h = ground arith
  length-with_room size (e ∷ l) h = ground arith

  length-set_entry :
      (size : ℤ) (key : Str) (item : CacheItem V) (l : Entries V)
      → length l ≤ max 1 (pos_part size)
      → length (set_entry size key item l) ≤ max 1 (pos_part size)
  length-set_entry size key item l h = omega (
    arith,
    DictLaws.length-add_last (with_room size (delete l key)) key item,
    length-with_room size (delete l key),
    DictLaws.length-delete-le l key,
  )

  length-live_entry :
      (t : Time) (key : Str) (l : Entries V)
      → Distinct (keys l)
      → length (live_entry t key l).1 ≤ length l
  length-live_entry t key l d = go (fetch l key) refl
    where
      go :
          (o : Option (CacheItem V)) → fetch l key ≡ o → length (judge_entry t key l o).1 ≤ length l
      go none e = omega arith
      go (some item) e =
          ground (
            arith,
            DictLaws.length-add_last (delete l key) key item,
            DictLaws.length-delete l key d,
          )

  length-touch_entry :
      (t : Time) (key : Str) (item old : CacheItem V) (l : Entries V)
      → fetch l key ≡ some old
      → length (touch_entry t key item l) ≡ length l
  length-touch_entry t key item old l h =
      ground (arith, DictLaws.length-store l key (record item { last_access = t }))

module _ {F O : Type 0} (to_int64 : F → ℤ) (size : ℤ) (life : Duration) where
  touched-le :
      (t : Time) (k : Str) (o : Option (CacheItem (Value F O))) (l : Entries (Value F O))
      → Kept to_int64 size life k o l
      → length (touched t k o l) ≤ length l
  touched-le t k none l h = omega arith
  touched-le t k (some item) l h = omega (arith, length-touch_entry t k item item l h)

  incremented-le :
      (t : Time) (k : Str) (by : ℤ) (o : Option (CacheItem (Value F O))) (l : Entries (Value F O))
      → Kept to_int64 size life k o l
      → length l ≤ max 1 (pos_part size)
      → length (expected_increment to_int64 size life t k by o l).1 ≤ max 1 (pos_part size)
  incremented-le t k by none l kept h = length-set_entry size k _ l h
  incremented-le t k by (some item) l kept h = omega (
    arith,
    length-touch_entry t k (record item { value = (add_to to_int64 item.value by).1 }) item l kept,
  )

  expected-le :
      (x : Call F O) (l : Entries (Value F O))
      → Distinct (keys l)
      → length l ≤ max 1 (pos_part size)
      → length (expected to_int64 size life x l).1 ≤ max 1 (pos_part size)
  expected-le (call_get t k) l d h = omega (
    arith,
    length-live_entry t k l d,
    touched-le t k (live_entry t k l).0 (live_entry t k l).1 (live-Kept to_int64 size life t k l),
  )
  expected-le (call_get_with_ttl t k) l d h = omega (
    arith,
    length-live_entry t k l d,
    touched-le t k (live_entry t k l).0 (live_entry t k l).1 (live-Kept to_int64 size life t k l),
  )
  expected-le (call_increment t k by) l d h =
      incremented-le t k by (live_entry t k l).0 (live_entry t k l).1
        (live-Kept to_int64 size life t k l) (omega (arith, length-live_entry t k l d))
  expected-le (call_exists t k) l d h = omega (arith, length-live_entry t k l d)
  expected-le (call_set t k v e) l d h = length-set_entry size k _ l h
  expected-le (call_delete k) l d h = omega (arith, DictLaws.length-delete-le l k)
  expected-le call_clear l d h = omega arith

  answers-le :
      (xs : List (Call F O)) (c : LruCache (Value F O)) (l : Entries (Value F O))
      → Holds to_int64 size life c l
      → length l ≤ max 1 (pos_part size)
      → length (answers to_int64 xs c).1.items ≤ max 1 (pos_part size)
  unfolding answers
  answers-le [] c l h b = omega (arith, h.list.size)
  answers-le (x ∷ xs) c l h b =
      answers-le xs (answer to_int64 x c).1 (expected to_int64 size life x l).1
        (answer-Follows to_int64 size life x c l h).1 (expected-le x l h.list.distinct b)

  -- Whatever calls of Get, Exists, GetWithTTL, Set, Increment, Delete and Clear are made of a new
  -- local cache, it never holds more entries than MaxSize, or than one if MaxSize is not positive.
  pub answers-size :
      (xs : List (Call F O))
      → length (answers to_int64 xs (new_local_cache size life)).1.items ≤ max 1 (pos_part size)
  answers-size xs =
      answers-le xs (new_local_cache size life) [] (start-Holds to_int64 size life) (omega arith)
