-- ===== src/Cache/Tests.antt =====
-- Runs of the local cache of pkg/cache/local.go, and its theorems at concrete inputs.
use ling_framework.Base.{
  ℕ, ◌≤◌, ◌≡◌, refl, none, some, List, [], ◌∷◌, arith, str_comparable, codes, length, max,
}
use ling_framework.Base.Dict.{fetch, store, delete}
use ling_framework.Base.Dict.Laws.{remove_first}
use ling_framework.Base.Int.{ℤ, pos, pos_part, wrap64, ◌+ℤ◌}
use ling_framework.Cache.{
  Value, int, CacheItem, LruCache, new_local_cache, update_access_order, lru_get, lru_delete,
  evict_lru, lru_set, get_live, get, exists, get_with_ttl, set, clear, cleanup, cleanup_over,
  add_to, increment,
}
use ling_framework.Cache.Refines.{Represents}
use ling_framework.Cache.Cleanup.{live_part, cleanup-Represents}
use ling_framework.Cache.Calls.{
  Call, call_get, call_set, call_increment, found, number, done, answers, expect_all,
}
use ling_framework.Cache.Calls.Laws.{answers-new_local_cache}
use ling_framework.Cache.Calls.Bound.{answers-size}
use ling_framework.Cache.Reads.{set-keeps}

program : Unit {0}
unfolding fetch store delete remove_first update_access_order lru_get lru_delete evict_lru lru_set
    get_live get exists get_with_ttl set clear cleanup cleanup_over add_to increment answers wrap64
    ◌+ℤ◌
program = tt

abbrev Val : Type 0
Val = Value (Unit {0}) (Unit {0})

abbrev no_floats : Unit {0} → ℤ
no_floats _ = pos 0

abbrev entry : ℕ → ℕ → ℕ → CacheItem Val
entry v expiration access = record {
  value = int (pos v);
  expiration = expiration;
  last_access = access;
}

-- Two entries in a cache for two; the first expires at 50.
abbrev two : LruCache Val
two = record {
  max_size = pos 2;
  default_expiration = pos 0;
  items = (codes "a", entry 1 50 10) ∷ (codes "b", entry 2 0 20) ∷ [];
  order = codes "a" ∷ codes "b" ∷ [];
}

two-Represents : Represents two two.items
two-Represents = record {
  order = refl;
  same = λ k. refl;
  distinct = (refl, (refl, tt));
  distinct_items = (refl, (refl, tt));
  size = refl;
}

-- The third key evicts the least recently used one, which a Get has moved.
abbrev calls : List (Call (Unit {0}) (Unit {0}))
calls =
    call_set 10 (codes "a") (int (pos 1)) (pos 40)
    ∷ call_set 20 (codes "b") (int (pos 2)) (pos 0)
    ∷ call_get 30 (codes "a")
    ∷ call_set 31 (codes "c") (int (pos 3)) (pos 0)
    ∷ call_get 32 (codes "b")
    ∷ call_increment 33 (codes "a") (pos 4)
    ∷ call_get 51 (codes "a")
    ∷ []

replies :
    (answers no_floats calls (new_local_cache (pos 2) (pos 0))).0
    ≡ done
      ∷ done
      ∷ found (some (int (pos 1)))
      ∷ done
      ∷ found none
      ∷ number (pos 5)
      ∷ found none
      ∷ []
unfolding program
replies = refl

answers-new_local_cache_example :
    ((answers no_floats calls (new_local_cache (pos 2) (pos 0))).0
      ≡ (expect_all no_floats (pos 2) (pos 0) calls []).0)
    × Represents
        (answers no_floats calls (new_local_cache (pos 2) (pos 0))).1
        (expect_all no_floats (pos 2) (pos 0) calls []).1
answers-new_local_cache_example = answers-new_local_cache no_floats (pos 2) (pos 0) calls

answers-size_example :
    length (answers no_floats calls (new_local_cache (pos 2) (pos 0))).1.items
    ≤ max 1 (pos_part (pos 2))
answers-size_example = answers-size no_floats (pos 2) (pos 0) calls

cleanup-Represents_example : Represents (cleanup 60 two) (live_part 60 two.items)
cleanup-Represents_example = cleanup-Represents 60 two two.items two-Represents

set-keeps_example : fetch (set 60 (codes "d") (int (pos 4)) (pos 5) two).items (codes "a") ≡ none
unfolding remove_first
set-keeps_example =
    set-keeps 60 (codes "d") (codes "a") (int (pos 4)) (pos 5) two two.items two-Represents
      (ground arith)
