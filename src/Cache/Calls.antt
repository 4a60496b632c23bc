-- ===== src/Cache/Calls.antt =====
-- Sequences of calls of a localCache (pkg/cache/local.go), and the recency list that answers them
-- in the same way.
pub mod Laws
pub mod Bound
use ling_framework.Base.{
  ◌≡◌, refl, ap, ap₂, subst, inl, inr, Bool, true, false, Option, none, some, List, [], ◌∷◌, arith,
  Str, str_comparable, length, Option-cases, ◌==◌, ==-refl, if◌then◌else◌,
}
use ling_framework.Base.Dict.{Dict, fetch, delete, is_some, fetch-delete}
use ling_framework.Base.Int.{ℤ, pos, ltb_ℤ}
use ling_framework.Base.Time.{Time, Duration, add_time}
use ling_framework.Cache.{
  Value, int64, CacheItem, LruCache, is_expired, new_local_cache, lru_delete, lru_set, touch,
  get_live, get, exists, finish_get, finish_ttl, finish_increment, get_with_ttl, ttl_of, set, clear,
  add_to, start_item, increment,
}
use ling_framework.Cache.Recency.{Entries, use_entry, set_entry, live_entry, touch_entry}
use ling_framework.Cache.Refines.{Represents, lru_delete-Represents, lru_set-Represents}
use ling_framework.Cache.Methods.{
  Settings, touch-Represents, get_live-Represents, live-fetch, lru_delete-Settings,
  lru_set-Settings, get_live-Settings,
}

pub data Call (F O : Type 0) : Type 0 where
  call_get call_exists call_get_with_ttl : Time → Str → Call F O
  call_set : Time → Str → Value F O → Duration → Call F O
  call_increment : Time → Str → ℤ → Call F O
  call_delete : Str → Call F O
  call_clear : Call F O

pub data Reply (F O : Type 0) : Type 0 where
  found : Option (Value F O) → Reply F O
  present : Bool → Reply F O
  with_ttl : Option (Value F O × Duration) → Reply F O
  number : ℤ → Reply F O
  done : Reply F O

module _ {F O : Type 0} where
  abbrev pub reply_of :
      {R : Type 0} → R → (CacheItem (Value F O) → R) → Option (CacheItem (Value F O)) → R
  reply_of miss hit none = miss
  reply_of miss hit (some item) = hit item

  abbrev pub touched :
      Time → Str → Option (CacheItem (Value F O)) → Entries (Value F O) → Entries (Value F O)
  touched t k none l = l
  touched t k (some item) l = touch_entry t k item l

  abbrev pub new_item : Time → Value F O → Time → CacheItem (Value F O)
  new_item t v expiration = record { value = v; expiration = expiration; last_access = t }

module _ {F O : Type 0} (to_int64 : F → ℤ) where
  abbrev pub answer : Call F O → LruCache (Value F O) → Reply F O × LruCache (Value F O)
  answer (call_get t k) c = let (r, c') = get t k c in (found r, c')
  answer (call_exists t k) c = let (r, c') = exists t k c in (present r, c')
  answer (call_get_with_ttl t k) c = let (r, c') = get_with_ttl t k c in (with_ttl r, c')
  answer (call_set t k v d) c = (done, set t k v d c)
  answer (call_increment t k by) c = let (n, c') = increment to_int64 t k by c in (number n, c')
  answer (call_delete k) c = (done, lru_delete k c)
  answer call_clear c = (done, clear c)

  unfoldable pub answers :
      List (Call F O) → LruCache (Value F O) → List (Reply F O) × LruCache (Value F O)
  answers [] c = ([], c)
  answers (x ∷ xs) c = let (r, c') = answer x c in let (rs, c'') = answers xs c' in (r ∷ rs, c'')

  -- The same on a recency list: `size` is MaxSize, `life` is DefaultExpiration.
  module _ (size : ℤ) (life : Duration) where
    abbrev pub expected_increment :
        Time
        → Str
        → ℤ
        → Option (CacheItem (Value F O))
        → Entries (Value F O)
        → Reply F O × Entries (Value F O)
    expected_increment t k by none l =
        (number by, set_entry size k (new_item t (int64 by) (add_time t life)) l)
    expected_increment t k by (some item) l =
        let (n, v) = add_to to_int64 item.value by in
        (number n, touch_entry t k (record item { value = v }) l)

    abbrev pub expected : Call F O → Entries (Value F O) → Reply F O × Entries (Value F O)
    expected (call_get t k) l =
        let (o, l') = live_entry t k l in
        (found (reply_of none (λ item. some item.value) o), touched t k o l')
    expected (call_exists t k) l = let (o, l') = live_entry t k l in (present (is_some o), l')
    expected (call_get_with_ttl t k) l =
        let (o, l') = live_entry t k l in
        (with_ttl (reply_of none (λ item. some (item.value, ttl_of t item)) o), touched t k o l')
    expected (call_set t k v d) l =
        (done, set_entry size k (new_item t v (if ltb_ℤ (pos 0) d then add_time t d else 0)) l)
    expected (call_increment t k by) l =
        let (o, l') = live_entry t k l in expected_increment t k by o l'
    expected (call_delete k) l = (done, delete l k)
    expected call_clear l = (done, [])

    unfoldable pub expect_all :
        List (Call F O) → Entries (Value F O) → List (Reply F O) × Entries (Value F O)
    expect_all [] l = ([], l)
    expect_all (x ∷ xs) l =
        let (r, l') = expected x l in let (rs, l'') = expect_all xs l' in (r ∷ rs, l'')
