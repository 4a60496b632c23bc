-- ===== src/Transaction/Joined.antt =====
-- Commit on contexts that joined a transaction or are nested in one (pkg/transaction/manager.go).
use ling_framework.Base.{
  ℕ, ◌≡◌, refl, sym, ap, subst, ◌∙◌, true, false, ◌&&◌, none, some, arith, inr, number_comparable,
  ◌==◌,
}
use ling_framework.Base.Dict.{fetch, store, fetch-store}
use ling_framework.Transaction.{
  Propagation, Config, TransactionContext, begun, Gorm, Heap, new_context, parent_of, is_active,
  is_open, handle_of, is_nested_in, nests,
}
use ling_framework.Transaction.Begin.{IsFresh, begin-IsFresh}
use ling_framework.Transaction.Manager.{
  begin, begin_in, commit, commit_found, commit_handle, mark_committed, rollback, rollback_found,
}

module _ {S H : Type 0} (db : Gorm S H) where
  commit_alone :
      (heap : Heap H) (s : S) (at : ℕ) (tc : TransactionContext H) (tx : H)
      → fetch heap at ≡ some tc
      → is_nested_in (parent_of heap tc.parent) tc ≡ false
      → is_open tc ≡ true
      → tc.transaction ≡ begun tx
      → commit db at heap s ≡ mark_committed db at tc (db.commit tx s) heap
  unfolding commit commit_found
  commit_alone heap s at tc tx found alone is_live e =
      ap (λ o. commit_found db at o heap s) found
      ∙ rw (is_live, alone) (ap (λ h. commit_handle db at tc h heap s) e)

  shut :
      (heap : Heap H) (s : S) (at : ℕ) (tc : TransactionContext H)
      → fetch heap at ≡ some tc
      → is_open tc ≡ false
      → (commit db at heap s ≡ (s, (heap, none))) × (rollback db at heap s ≡ (s, (heap, none)))
  unfolding commit commit_found rollback rollback_found
  shut heap s at tc found closed = (
    ap (λ o. commit_found db at o heap s) found ∙ rw closed refl,
    ap (λ o. rollback_found db at o heap s) found ∙ rw closed refl,
  )

  fetch-marked :
      (heap : Heap H) (at : ℕ) (tc : TransactionContext H) → fetch (store heap at tc) at ≡ some tc
  fetch-marked heap at tc = fetch-store heap at at tc ∙ ground arith

  -- A Commit that gives no error, of an open context on a transaction that gorm has opened and that
  -- is not nested in an active one, closes the context: a second Commit and a Rollback, at any
  -- later state of the database, change nothing and give no error.
  pub commit-closed :
      (heap : Heap H) (s t later : S) (at : ℕ) (tc : TransactionContext H) (tx : H)
      → fetch heap at ≡ some tc
      → is_nested_in (parent_of heap tc.parent) tc ≡ false
      → is_open tc ≡ true
      → tc.transaction ≡ begun tx
      → db.commit tx s ≡ (t, none)
      → (commit db at (commit db at heap s).1.0 later ≡ (later, ((commit db at heap s).1.0, none)))
        × (rollback db at (commit db at heap s).1.0 later
            ≡ (later, ((commit db at heap s).1.0, none)))
  commit-closed heap s t later at tc tx found alone is_live e done =
      let marked : TransactionContext H = record tc { committed = true } in
      let after : (commit db at heap s).1.0 ≡ store heap at marked =
        ap (λ r. r.1.0)
          (commit_alone heap s at tc tx found alone is_live e
            ∙ ap (λ r. mark_committed db at tc r heap) done) in
      subst
        (λ w.
          (commit db at w later ≡ (later, (w, none)))
          × (rollback db at w later ≡ (later, (w, none))))
        (sym after) (shut (store heap at marked) later at marked (fetch-marked heap at marked) refl)

  commit_nested :
      (heap : Heap H) (s : S) (at : ℕ) (tc : TransactionContext H)
      → fetch heap at ≡ some tc
      → is_open tc ≡ true
      → is_nested_in (parent_of heap tc.parent) tc ≡ true
      → commit db at heap s ≡ (s, (heap, none))
  unfolding commit commit_found
  commit_nested heap s at tc found is_live nested =
      ap (λ o. commit_found db at o heap s) found ∙ rw (is_live, nested) refl

  other_kept :
      (heap : Heap H) (at parent : ℕ) (tc : TransactionContext H)
      → (at == parent) ≡ false
      → fetch (store heap at tc) parent ≡ fetch heap parent
  other_kept heap at parent tc e = fetch-store heap at parent tc ∙ rw e refl

  -- Commit of a context that Begin gave for a nested transaction, while the parent is active,
  -- changes nothing and gives no error: the transaction that gorm opened for it is not committed.
  pub commit-begin_nested :
      (heap : Heap H) (s t : S) (at parent : ℕ) (outer tc : TransactionContext H) (config : Config)
      → config.propagation ≡ Propagation.nested
      → fetch heap parent ≡ some outer
      → is_open outer ≡ true
      → begin db heap (some parent) (some config) s ≡ (t, inr tc)
      → (at == parent) ≡ false
      → commit db at (store heap at tc) t ≡ (t, (store heap at tc, none))
  commit-begin_nested heap s t at parent outer tc config p found is_live e other =
      let made =
        subst (IsFresh (some parent) config) e
          (begin-IsFresh db heap (some parent) (some config) s) in
      let parent_found : parent_of (store heap at tc) tc.parent ≡ some outer =
        ap (parent_of (store heap at tc)) made.1 ∙ other_kept heap at parent tc other ∙ found in
      let kind : nests tc.config.propagation ≡ true =
        ap (λ c. nests c.propagation) made.2 ∙ ap nests p in
      commit_nested (store heap at tc) t at tc (fetch-marked heap at tc) made.0 (
        ap (λ o. is_active o && nests tc.config.propagation) parent_found
        ∙ ground (arith, kind, is_live))

  begin_joined :
      (heap : Heap H) (s : S) (parent : ℕ) (outer : TransactionContext H) (tx : H) (config : Config)
      → config.propagation ≡ Propagation.required
      → fetch heap parent ≡ some outer
      → is_open outer ≡ true
      → outer.transaction ≡ begun tx
      → begin db heap (some parent) (some config) s
        ≡ (s, inr (new_context (begun tx) config (some parent)))
  unfolding begin begin_in
  begin_joined heap s parent outer tx config p found is_live e =
      ap (λ o. begin_in db (some parent) config config.propagation (is_active o) (handle_of o) s)
        found
      ∙ ap (λ k. begin_in db (some parent) config k (is_open outer) outer.transaction s) p
      ∙ ap (λ b. begin_in db (some parent) config Propagation.required b outer.transaction s)
          is_live
      ∙ ap (λ h. (s, inr (new_context h config (some parent)))) e

  -- Begin with required and an active parent, whose transaction gorm has opened, joins this
  -- transaction. Commit of the new context commits it, and the parent stays as it was, open on the
  -- transaction just committed.
  pub commit-begin_joined :
      (heap : Heap H) (s u : S) (at parent : ℕ) (outer : TransactionContext H) (tx : H)
      → (config : Config) → config.propagation ≡ Propagation.required
      → fetch heap parent ≡ some outer
      → is_open outer ≡ true
      → outer.transaction ≡ begun tx
      → (at == parent) ≡ false
      → db.commit tx s ≡ (u, none)
      → let joined = new_context (begun tx) config (some parent) in
        (begin db heap (some parent) (some config) s ≡ (s, inr joined))
        × ((commit db at (store heap at joined) s).0 ≡ u)
        × (fetch (commit db at (store heap at joined) s).1.0 parent ≡ some outer)
  commit-begin_joined heap s u at parent outer tx config p found is_live e other done =
      let joined : TransactionContext H = new_context (begun tx) config (some parent) in
      let marked : TransactionContext H = record joined { committed = true } in
      let alone : is_nested_in (parent_of (store heap at joined) (some parent)) joined ≡ false =
        ap (λ k. is_active (fetch (store heap at joined) parent) && nests k) p ∙ ground arith in
      let run =
        commit_alone (store heap at joined) s at joined tx (fetch-marked heap at joined) alone refl
          refl
        ∙ ap (λ r. mark_committed db at joined r (store heap at joined)) done in
      (
        begin_joined heap s parent outer tx config p found is_live e,
        ap (λ r. r.0) run,
        ap (λ r. fetch r.1.0 parent) run
            ∙ other_kept (store heap at joined) at parent marked other
            ∙ other_kept heap at parent joined other
            ∙ found,
      )
