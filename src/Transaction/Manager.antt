-- ===== src/Transaction/Manager.antt =====
-- Begin, Commit and Rollback of the manager of transactions (pkg/transaction/manager.go).
use ling_framework.Base.{
  ℕ, Bool, true, false, not, Option, none, some, Str, number_comparable, if◌then◌else◌, ◌⊎◌, inl,
  inr,
}
use ling_framework.Base.Dict.{fetch, store}
use ling_framework.Base.Int.{ℤ, pos, ltb_ℤ}
use ling_framework.Transaction.{
  Propagation, Config, TransactionContext, Handle, no_handle, connection, begun, Gorm, GoError,
  BeginError, transaction_required, transaction_not_allowed, database, Heap, reported,
  isolation_sql, new_context, config_or_default, parent_of, is_active, is_open, handle_of,
  is_nested_in,
}

module _ {S H : Type 0} (db : Gorm S H) where
  -- setIsolationLevel
  abbrev pub set_isolation : Option Str → H → S → S × Option GoError
  set_isolation none tx s = (s, none)
  set_isolation (some sql) tx s = let (t, err) = db.exec tx sql s in (t, reported err)

  -- The deferred cancel has run when Begin returns.
  abbrev pub attach_timeout : ℤ → H → H
  attach_timeout timeout tx =
      if ltb_ℤ (pos 0) timeout
      then db.with_context (record { seconds = timeout; cancelled = true }) tx
      else tx

  -- The end of Begin, after a transaction was opened.
  abbrev pub finish_begin :
      Option ℕ → Config → H → S × Option GoError → S × (BeginError ⊎ TransactionContext H)
  finish_begin parent config tx (s, some err) = (s, inl (database err))
  finish_begin parent config tx (s, none) =
      (s, inr (new_context (begun (attach_timeout config.timeout tx)) config parent))

  abbrev pub opened :
      Option ℕ → Config → S × (GoError ⊎ H) → S × (BeginError ⊎ TransactionContext H)
  opened parent config (s, inl err) = (s, inl (database err))
  opened parent config (s, inr tx) =
      finish_begin parent config tx (set_isolation (isolation_sql config.isolation_level) tx s)

  -- The switch of Begin: whether the parent is active, and its Transaction.
  unfoldable pub begin_in :
      Option ℕ
      → Config
      → Propagation
      → Bool
      → Handle H
      → S
      → S × (BeginError ⊎ TransactionContext H)
  begin_in parent config Propagation.requires_new active tx s = opened parent config (db.start s)
  begin_in parent config Propagation.supports true tx s = (s, inr (new_context tx config parent))
  begin_in parent config Propagation.supports false tx s =
      (s, inr (new_context connection config parent))
  begin_in parent config Propagation.not_supported active tx s =
      (s, inr (new_context connection config parent))
  begin_in parent config Propagation.mandatory true tx s = (s, inr (new_context tx config parent))
  begin_in parent config Propagation.mandatory false tx s = (s, inl transaction_required)
  begin_in parent config Propagation.never true tx s = (s, inl transaction_not_allowed)
  begin_in parent config Propagation.never false tx s =
      (s, inr (new_context connection config parent))
  begin_in parent config Propagation.nested active tx s = opened parent config (db.start s)
  begin_in parent config required_or_other true tx s = (s, inr (new_context tx config parent))
  begin_in parent config required_or_other false tx s = opened parent config (db.start s)

  -- Begin
  unfoldable pub begin :
      Heap H → Option ℕ → Option Config → S → S × (BeginError ⊎ TransactionContext H)
  begin heap parent given s =
      let config = config_or_default given in
      let outer = parent_of heap parent in
      begin_in parent config config.propagation (is_active outer) (handle_of outer) s

  -- Commit and Rollback give the new heap and the error.
  abbrev pub mark_committed :
      ℕ → TransactionContext H → S × Option GoError → Heap H → S × (Heap H × Option GoError)
  mark_committed at tc (s, some err) heap = (s, (heap, some err))
  mark_committed at tc (s, none) heap = (s, (store heap at (record tc { committed = true }), none))

  abbrev pub commit_handle :
      ℕ → TransactionContext H → Handle H → Heap H → S → S × (Heap H × Option GoError)
  commit_handle at tc (begun tx) heap s = mark_committed at tc (db.commit tx s) heap
  commit_handle at tc _ heap s = (s, (heap, none))

  unfoldable pub commit_found :
      ℕ → Option (TransactionContext H) → Heap H → S → S × (Heap H × Option GoError)
  commit_found at none heap s = (s, (heap, none))
  commit_found at (some tc) heap s =
      if not (is_open tc)
      then (s, (heap, none))
      else if is_nested_in (parent_of heap tc.parent) tc
      then (s, (heap, none))
      else commit_handle at tc tc.transaction heap s

  unfoldable pub commit : ℕ → Heap H → S → S × (Heap H × Option GoError)
  commit at heap s = commit_found at (fetch heap at) heap s

  abbrev pub mark_rolled_back :
      ℕ → TransactionContext H → S × Option GoError → Heap H → S × (Heap H × Option GoError)
  mark_rolled_back at tc (s, some err) heap = (s, (heap, some err))
  mark_rolled_back at tc (s, none) heap =
      (s, (store heap at (record tc { rolled_back = true }), none))

  abbrev pub rollback_handle :
      ℕ → TransactionContext H → Handle H → Heap H → S → S × (Heap H × Option GoError)
  rollback_handle at tc (begun tx) heap s = mark_rolled_back at tc (db.rollback tx s) heap
  rollback_handle at tc _ heap s = (s, (heap, none))

  -- The branch of a nested transaction ignores the error of gorm. On the connection, which Begin
  -- gives no nested transaction, gorm has nothing to roll back.
  abbrev pub rollback_nested :
      ℕ → TransactionContext H → Handle H → Heap H → S → S × (Heap H × Option GoError)
  rollback_nested at tc (begun tx) heap s = mark_rolled_back at tc ((db.rollback tx s).0, none) heap
  rollback_nested at tc connection heap s = mark_rolled_back at tc (s, none) heap
  rollback_nested at tc no_handle heap s = (s, (heap, none))

  unfoldable pub rollback_found :
      ℕ → Option (TransactionContext H) → Heap H → S → S × (Heap H × Option GoError)
  rollback_found at none heap s = (s, (heap, none))
  rollback_found at (some tc) heap s =
      if not (is_open tc)
      then (s, (heap, none))
      else if is_nested_in (parent_of heap tc.parent) tc
      then rollback_nested at tc tc.transaction heap s
      else rollback_handle at tc tc.transaction heap s

  unfoldable pub rollback : ℕ → Heap H → S → S × (Heap H × Option GoError)
  rollback at heap s = rollback_found at (fetch heap at) heap s
