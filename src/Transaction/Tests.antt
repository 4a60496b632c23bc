-- ===== src/Transaction/Tests.antt =====
-- Tests of the transactions on a database that counts its operations and refuses none.
use ling_framework.Base.{
  ℕ, ◌+◌, ◌≡◌, ◌↔◌, refl, true, false, none, some, List, [], ◌∷◌, All, ◌⊎◌, inr, number_comparable,
  str_comparable, codes,
}
use ling_framework.Base.Dict.{fetch, store}
use ling_framework.Transaction.{
  Propagation, Config, TransactionContext, begun, Gorm, GoError, Heap, default_config, new_context,
  should_rollback, errors_is, is_any,
}
use ling_framework.Transaction.Manager.{begin, begin_in, commit}
use ling_framework.Transaction.Errors.{Matched, should_rollback_iff}
use ling_framework.Transaction.Begin.{opens, Outcome, begin-Outcome}
use ling_framework.Transaction.Closing.{Call, call_all, IsExclusive, call_all-IsExclusive}
use ling_framework.Transaction.Joined.{commit-begin_nested}

abbrev counting : Gorm ℕ ℕ
counting = record {
  start = λ s. (s + 1, inr s);
  exec = λ tx sql s. (s + 1, none);
  commit = λ tx s. (s + 1, none);
  rollback = λ tx s. (s + 1, none);
  with_context = λ c tx. tx;
}

abbrev nested_config : Config
nested_config = record default_config { propagation = Propagation.nested }

abbrev outer : TransactionContext ℕ
outer = new_context (begun 0) default_config none

abbrev one_open : Heap ℕ
one_open = (1, outer) ∷ []

abbrev not_found : GoError
not_found = record { identity = 4; wrapped = []; message = codes "not found" }

abbrev wrapping : GoError
wrapping = record { identity = 9; wrapped = 4 ∷ []; message = codes "user: not found" }

abbrev on_not_found : Config
on_not_found = record default_config { rollback_on = not_found ∷ [] }

wrapped_rolls_back : should_rollback on_not_found (some wrapping) ≡ true
unfolding should_rollback is_any
wrapped_rolls_back = refl

should_rollback_iff_example : (should_rollback on_not_found (some wrapping) ≡ true) ↔ (
    All (λ t. errors_is wrapping t ≡ false) []
    × (((not_found ∷ []) ≡ []) ⊎ Matched wrapping (not_found ∷ [])))
should_rollback_iff_example = should_rollback_iff on_not_found wrapping

begin-Outcome_example :
    Outcome counting
      (some 1)
      nested_config
      opens
      (begun 0)
      5
      (begin counting one_open (some 1) (some nested_config) 5)
unfolding fetch
begin-Outcome_example = begin-Outcome counting one_open (some 1) (some nested_config) 5

abbrev some_calls : List Call
some_calls = Call.begin_at 1 none none ∷ Call.commit_at 1 ∷ Call.rollback_at 1 ∷ []

call_all-IsExclusive_example :
    IsExclusive {H = ℕ} (fetch (call_all counting some_calls (0, [])).1 1)
call_all-IsExclusive_example = call_all-IsExclusive counting some_calls 0 1

abbrev after_commit : ℕ × Heap ℕ
after_commit = (6, (1, record outer { committed = true }) ∷ [])

commit-begin_nested_example :
    commit counting 2 (store one_open 2 (new_context (begun 5) nested_config (some 1))) 6
    ≡ (6, (store one_open 2 (new_context (begun 5) nested_config (some 1)), none))
unfolding fetch begin begin_in
commit-begin_nested_example =
    commit-begin_nested counting one_open 5 6 2 1 outer
      (new_context (begun 5) nested_config (some 1)) nested_config refl refl refl refl refl
