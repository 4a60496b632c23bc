-- ===== src/Transaction/Closing.antt =====
-- Commit and Rollback of contexts that Begin has given (pkg/transaction/manager.go).
use ling_framework.Base.{
  ℕ, ◌≡◌, true, false, ◌&&◌, Option, none, some, List, [], ◌∷◌, arith, Bool-cases, ◌⊎◌, inl, inr,
  number_comparable, ◌==◌,
}
use ling_framework.Base.Dict.{fetch, store, fetch-store}
use ling_framework.Transaction.{
  Config, TransactionContext, Handle, no_handle, connection, begun, Gorm, GoError, BeginError, Heap,
  config_or_default, parent_of, is_open, is_nested_in,
}
use ling_framework.Transaction.Begin.{IsFresh, begin-IsFresh}
use ling_framework.Transaction.Manager.{
  begin, commit, commit_found, commit_handle, mark_committed, rollback, rollback_found,
  rollback_handle, rollback_nested, mark_rolled_back,
}

-- A call at an address; Begin stores its context at an address of the caller's choice.
pub data Call : Type 0 where
  begin_at : ℕ → Option ℕ → Option Config → Call
  commit_at : ℕ → Call
  rollback_at : ℕ → Call

module _ {S H : Type 0} where
  abbrev pub allocate : ℕ → Heap H → S × (BeginError ⊎ TransactionContext H) → S × Heap H
  allocate at heap (s, inl err) = (s, heap)
  allocate at heap (s, inr tc) = (s, store heap at tc)

  abbrev pub without_error : S × (Heap H × Option GoError) → S × Heap H
  without_error (s, (heap, err)) = (s, heap)

  abbrev pub call : Gorm S H → Call → S × Heap H → S × Heap H
  call db (begin_at at parent given) (s, heap) = allocate at heap (begin db heap parent given s)
  call db (commit_at at) (s, heap) = without_error (commit db at heap s)
  call db (rollback_at at) (s, heap) = without_error (rollback db at heap s)

  unfoldable pub call_all : Gorm S H → List Call → S × Heap H → S × Heap H
  call_all db [] w = w
  call_all db (x ∷ xs) w = call_all db xs (call db x w)

module _ {H : Type 0} where
  -- Not both committed and rolled back.
  abbrev pub IsExclusive : Option (TransactionContext H) → Type 0
  IsExclusive none = Unit
  IsExclusive (some tc) = (tc.committed && tc.rolled_back) ≡ false

  abbrev AllExclusive : Heap H → Type 0
  AllExclusive heap = (at : ℕ) → IsExclusive (fetch heap at)

  store-AllExclusive :
      (heap : Heap H) (at : ℕ) (tc : TransactionContext H)
      → AllExclusive heap
      → IsExclusive (some tc)
      → AllExclusive (store heap at tc)
  store-AllExclusive heap at tc h k other = elim (Bool-cases (at == other)) [
    | inl e ↦ rw (fetch-store heap at other tc, e) k
    | inr e ↦ rw (fetch-store heap at other tc, e) (h other)
  ]

module _ {S H : Type 0} (db : Gorm S H) where
  allocate-AllExclusive :
      (parent : Option ℕ) (config : Config) (at : ℕ) (heap : Heap H)
      (result : S × (BeginError ⊎ TransactionContext H))
      → IsFresh parent config result
      → AllExclusive heap
      → AllExclusive (allocate at heap result).1
  allocate-AllExclusive parent config at heap (t, inl err) o h = h
  allocate-AllExclusive parent config at heap (t, inr tc) o h =
      store-AllExclusive heap at tc h (ground (arith, o.0))

  mark_committed-AllExclusive :
      (at : ℕ) (tc : TransactionContext H) (done : S × Option GoError) (heap : Heap H)
      → tc.rolled_back ≡ false
      → AllExclusive heap
      → AllExclusive (mark_committed db at tc done heap).1.0
  mark_committed-AllExclusive at tc (s, some err) heap k h = h
  mark_committed-AllExclusive at tc (s, none) heap k h =
      store-AllExclusive heap at (record tc { committed = true }) h k

  mark_rolled_back-AllExclusive :
      (at : ℕ) (tc : TransactionContext H) (done : S × Option GoError) (heap : Heap H)
      → tc.committed ≡ false
      → AllExclusive heap
      → AllExclusive (mark_rolled_back db at tc done heap).1.0
  mark_rolled_back-AllExclusive at tc (s, some err) heap k h = h
  mark_rolled_back-AllExclusive at tc (s, none) heap k h =
      store-AllExclusive heap at (record tc { rolled_back = true }) h (ground (arith, k))

  commit_handle-AllExclusive :
      (at : ℕ) (tc : TransactionContext H) (tx : Handle H) (heap : Heap H) (s : S)
      → tc.rolled_back ≡ false
      → AllExclusive heap
      → AllExclusive (commit_handle db at tc tx heap s).1.0
  commit_handle-AllExclusive at tc no_handle heap s k h = h
  commit_handle-AllExclusive at tc connection heap s k h = h
  commit_handle-AllExclusive at tc (begun tx) heap s k h =
      mark_committed-AllExclusive at tc (db.commit tx s) heap k h

  rollback_handle-AllExclusive :
      (at : ℕ) (tc : TransactionContext H) (tx : Handle H) (heap : Heap H) (s : S)
      → tc.committed ≡ false
      → AllExclusive heap
      → AllExclusive (rollback_handle db at tc tx heap s).1.0
        × AllExclusive (rollback_nested db at tc tx heap s).1.0
  rollback_handle-AllExclusive at tc no_handle heap s k h = (h, h)
  rollback_handle-AllExclusive at tc connection heap s k h =
      (h, mark_rolled_back-AllExclusive at tc (s, none) heap k h)
  rollback_handle-AllExclusive at tc (begun tx) heap s k h = (
    mark_rolled_back-AllExclusive at tc (db.rollback tx s) heap k h,
    mark_rolled_back-AllExclusive at tc ((db.rollback tx s).0, none) heap k h,
  )

  commit_found-AllExclusive :
      (at : ℕ) (found : Option (TransactionContext H)) (heap : Heap H) (s : S)
      → AllExclusive heap
      → AllExclusive (commit_found db at found heap s).1.0
  unfolding commit_found
  commit_found-AllExclusive at none heap s h = h
  commit_found-AllExclusive at (some tc) heap s h = elim (Bool-cases (is_open tc)) [
    | inr shut ↦ rw shut h
    | inl is_live ↦ elim (Bool-cases (is_nested_in (parent_of heap tc.parent) tc)) [
      | inl nested ↦ rw (is_live, nested) h
      | inr alone ↦
          rw (is_live, alone)
            (commit_handle-AllExclusive at tc tc.transaction heap s (ground (arith, is_live)) h)
    ]
  ]

  rollback_found-AllExclusive :
      (at : ℕ) (found : Option (TransactionContext H)) (heap : Heap H) (s : S)
      → AllExclusive heap
      → AllExclusive (rollback_found db at found heap s).1.0
  unfolding rollback_found
  rollback_found-AllExclusive at none heap s h = h
  rollback_found-AllExclusive at (some tc) heap s h = elim (Bool-cases (is_open tc)) [
    | inr shut ↦ rw shut h
    | inl is_live ↦
        let both =
          rollback_handle-AllExclusive at tc tc.transaction heap s (ground (arith, is_live)) h in
        elim (Bool-cases (is_nested_in (parent_of heap tc.parent) tc)) [
          | inl nested ↦ rw (is_live, nested) both.1
          | inr alone ↦ rw (is_live, alone) both.0
        ]
  ]

  call-AllExclusive : (x : Call) (w : S × Heap H) → AllExclusive w.1 → AllExclusive (call db x w).1
  unfolding commit rollback
  call-AllExclusive (begin_at at parent given) (s, heap) h =
      allocate-AllExclusive parent (config_or_default given) at heap (begin db heap parent given s)
        (begin-IsFresh db heap parent given s) h
  call-AllExclusive (commit_at at) (s, heap) h =
      commit_found-AllExclusive at (fetch heap at) heap s h
  call-AllExclusive (rollback_at at) (s, heap) h =
      rollback_found-AllExclusive at (fetch heap at) heap s h

  exclusive_after :
      (xs : List Call) (w : S × Heap H) → AllExclusive w.1 → AllExclusive (call_all db xs w).1
  unfolding call_all
  exclusive_after [] w h = h
  exclusive_after (x ∷ xs) w h = exclusive_after xs (call db x w) (call-AllExclusive x w h)

  -- Whatever calls of Begin, Commit and Rollback are made, and however gorm answers, no context is
  -- both committed and rolled back.
  pub call_all-IsExclusive :
      (xs : List Call) (s : S) (at : ℕ) → IsExclusive (fetch (call_all db xs (s, [])).1 at)
  unfolding fetch
  call_all-IsExclusive xs s at = exclusive_after xs (s, []) (λ other. tt) at
