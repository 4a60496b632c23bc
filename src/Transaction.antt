-- ===== src/Transaction.antt =====
-- Declarative transactions, pkg/transaction/types.go and manager.go. gorm is the parameter `db`: a
-- state and its operations. The contexts live in a heap, since Commit and Rollback set flags of a
-- context that others point to as their parent; an address stands for *TransactionContext.
pub mod Manager
pub mod Errors
pub mod Begin
pub mod Closing
pub mod Joined
mod Tests
use ling_framework.Base.{
  ℕ, Bool, true, false, ◌&&◌, ◌||◌, not, Option, none, some, List, [], ◌∷◌, Str, str_comparable,
  number_comparable, codes, length, member, nat_beq, ltb, ◌==◌, if◌then◌else◌, ◌⊎◌, inl, inr,
}
use ling_framework.Base.Dict.{Dict, fetch, store}
use ling_framework.Base.Int.{ℤ, pos, ltb_ℤ}

-- `other` is any other value of the type.
pub data Propagation : Type 0 where
  required requires_new supports not_supported mandatory never nested other : Propagation

pub data IsolationLevel : Type 0 where
  default read_uncommitted read_committed repeatable_read serializable unknown : IsolationLevel

-- An error: its identity, those of the errors that it wraps (by Unwrap), and its text.
pub record GoError : Type 0 where
  pub identity : ℕ
  pub wrapped : List ℕ
  pub message : Str

pub record Config : Type 0 where
  pub propagation : Propagation
  pub isolation_level : IsolationLevel
  pub read_only : Bool
  pub timeout : ℤ
  pub rollback_on : List GoError
  pub no_rollback_on : List GoError

abbrev pub default_config : Config
default_config = record {
  propagation = Propagation.required;
  isolation_level = IsolationLevel.default;
  read_only = false;
  timeout = pos 0;
  rollback_on = [];
  no_rollback_on = [];
}

-- The setters of Config.
abbrev pub with_propagation : Propagation → Config → Config
with_propagation p c = record c { propagation = p }

abbrev pub with_isolation_level : IsolationLevel → Config → Config
with_isolation_level level c = record c { isolation_level = level }

abbrev pub with_read_only : Bool → Config → Config
with_read_only read_only_given c = record c { read_only = read_only_given }

abbrev pub with_timeout : ℤ → Config → Config
with_timeout timeout_given c = record c { timeout = timeout_given }

abbrev pub with_rollback_on : List GoError → Config → Config
with_rollback_on errors c = record c { rollback_on = errors }

abbrev pub with_no_rollback_on : List GoError → Config → Config
with_no_rollback_on errors c = record c { no_rollback_on = errors }

-- A *gorm.DB: nil, the connection of the manager (m.db), or one that gorm has handed out.
pub data Handle (H : Type 0) : Type 0 where
  no_handle connection : Handle H
  begun : H → Handle H

pub record TransactionContext (H : Type 0) : Type 0 where
  pub transaction : Handle H
  pub config : Config
  pub parent : Option ℕ
  pub committed : Bool
  pub rolled_back : Bool

-- context.Context of a timeout.
pub record Context : Type 0 where
  pub seconds : ℤ
  pub cancelled : Bool

-- gorm: db.Begin(), tx.Exec(sql), tx.Commit(), tx.Rollback(), tx.WithContext(ctx).
pub record Gorm (S H : Type 0) : Type 0 where
  pub start : S → S × (GoError ⊎ H)
  pub exec : H → Str → S → S × Option GoError
  pub commit : H → S → S × Option GoError
  pub rollback : H → S → S × Option GoError
  pub with_context : Context → H → H

pub data BeginError : Type 0 where
  transaction_required transaction_not_allowed : BeginError
  database : GoError → BeginError

abbrev pub Heap : Type 0 → Type 0
Heap H = Dict ℕ (TransactionContext H)

-- errors.Is
abbrev pub errors_is : GoError → GoError → Bool
errors_is err target = member target.identity (err.identity ∷ err.wrapped)

unfoldable pub is_any : GoError → List GoError → Bool
is_any err [] = false
is_any err (target ∷ targets) = errors_is err target || is_any err targets

abbrev pub rolls_back_on : GoError → List GoError → Bool
rolls_back_on err [] = true
rolls_back_on err (target ∷ targets) = is_any err (target ∷ targets)

-- ShouldRollback; `none` is a nil error.
unfoldable pub should_rollback : Config → Option GoError → Bool
should_rollback config none = false
should_rollback config (some err) =
    if is_any err config.no_rollback_on then false else rolls_back_on err config.rollback_on

-- strings.Contains
unfoldable pub is_prefix : Str → Str → Bool
is_prefix [] s = true
is_prefix (x ∷ t) [] = false
is_prefix (x ∷ t) (y ∷ s) = nat_beq x y && is_prefix t s

unfoldable pub has_text : Str → Str → Bool
has_text [] t = is_prefix t []
has_text (x ∷ s) t = is_prefix t (x ∷ s) || has_text s t

abbrev pub isolation_sql : IsolationLevel → Option Str
isolation_sql IsolationLevel.read_uncommitted =
    some (codes "SET TRANSACTION ISOLATION LEVEL READ UNCOMMITTED")
isolation_sql IsolationLevel.read_committed =
    some (codes "SET TRANSACTION ISOLATION LEVEL READ COMMITTED")
isolation_sql IsolationLevel.repeatable_read =
    some (codes "SET TRANSACTION ISOLATION LEVEL REPEATABLE READ")
isolation_sql IsolationLevel.serializable =
    some (codes "SET TRANSACTION ISOLATION LEVEL SERIALIZABLE")
isolation_sql _ = none

-- An error of the kind that SQLite gives is not reported.
abbrev pub reported : Option GoError → Option GoError
reported none = none
reported (some err) =
    if has_text err.message (codes "syntax error") || has_text err.message (codes "near \"SET\"")
    then none
    else some err

abbrev pub nests : Propagation → Bool
nests Propagation.nested = true
nests _ = false

abbrev pub config_or_default : Option Config → Config
config_or_default none = default_config
config_or_default (some config) = config

module _ {H : Type 0} where
  -- IsActive of a context that is not nil.
  abbrev pub is_open : TransactionContext H → Bool
  is_open tc = not tc.committed && not tc.rolled_back

  -- IsActive, on the pointer's target; `none` is nil.
  abbrev pub is_active : Option (TransactionContext H) → Bool
  is_active none = false
  is_active (some tc) = is_open tc

  -- tc.Parent != nil && tc.Parent.IsActive() && tc.Config.Propagation == PropagationNested
  abbrev pub is_nested_in : Option (TransactionContext H) → TransactionContext H → Bool
  is_nested_in outer tc = is_active outer && nests tc.config.propagation

  abbrev pub parent_of : Heap H → Option ℕ → Option (TransactionContext H)
  parent_of heap none = none
  parent_of heap (some at) = fetch heap at

  -- A context as Begin makes it.
  abbrev pub new_context : Handle H → Config → Option ℕ → TransactionContext H
  new_context tx config parent = record {
    transaction = tx;
    config = config;
    parent = parent;
    committed = false;
    rolled_back = false;
  }

  abbrev pub handle_of : Option (TransactionContext H) → Handle H
  handle_of none = no_handle
  handle_of (some tc) = tc.transaction
