-- ===== src/Transaction/Begin.antt =====
-- What Begin gives for each propagation (pkg/transaction/manager.go).
use ling_framework.Base.{
  ℕ, ◌≡◌, refl, sym, ap, subst, Bool, true, false, if◌then◌else◌, Option, none, some, ◌⊎◌, inl, inr,
  number_comparable,
}
use ling_framework.Transaction.{
  Propagation, Config, TransactionContext, Handle, connection, begun, Gorm, GoError, BeginError,
  transaction_required, transaction_not_allowed, database, Heap, config_or_default, parent_of,
  is_active, is_open, handle_of, isolation_sql, new_context,
}
use ling_framework.Transaction.Manager.{
  begin, begin_in, opened, finish_begin, attach_timeout, set_isolation,
}

-- What a propagation asks of Begin: to join the transaction of the parent, to open one, to work
-- without one, or to refuse.
pub data Ask : Type 0 where
  joins opens bare : Ask
  refuses : BeginError → Ask

-- The propagations by whether the parent is active, as their comments in pkg/transaction/types.go
-- describe them, but for Nested: it opens a transaction of its own, and no savepoint. A number that
-- is none of them is taken as Required.
abbrev pub asked : Propagation → Bool → Ask
asked Propagation.required active = if active then joins else opens
asked Propagation.requires_new active = opens
asked Propagation.supports active = if active then joins else bare
asked Propagation.not_supported active = bare
asked Propagation.mandatory active = if active then joins else refuses transaction_required
asked Propagation.never active = if active then refuses transaction_not_allowed else bare
asked Propagation.nested active = opens
asked Propagation.other active = if active then joins else opens

module _ {S H : Type 0} where
  -- A transaction is opened: gorm starts one and sets the isolation level, and the first error of
  -- the two is passed on; otherwise the context is new and open and works on this transaction.
  abbrev pub Opened :
      Gorm S H → Option ℕ → Config → S → S × (BeginError ⊎ TransactionContext H) → Type 0
  Opened db parent config s (t, inl (database err)) =
      (db.start s ≡ (t, inl err))
      ⊎ ((h : H) × ((db.start s).1 ≡ inr h)
          × (set_isolation db (isolation_sql config.isolation_level) h (db.start s).0
              ≡ (t, some err)))
  Opened db parent config s (t, inl transaction_required) = true ≡ false
  Opened db parent config s (t, inl transaction_not_allowed) = true ≡ false
  Opened db parent config s (t, inr tc) =
      (h : H) × ((db.start s).1 ≡ inr h)
      × (set_isolation db (isolation_sql config.isolation_level) h (db.start s).0 ≡ (t, none))
      × (tc ≡ new_context (begun (attach_timeout db config.timeout h)) config parent)

  -- The result of Begin for what is asked; `outer` is the transaction of the parent. Only opens
  -- touches the database.
  abbrev pub Outcome :
      Gorm S H
      → Option ℕ
      → Config
      → Ask
      → Handle H
      → S
      → S × (BeginError ⊎ TransactionContext H)
      → Type 0
  Outcome db parent config joins outer s r = r ≡ (s, inr (new_context outer config parent))
  Outcome db parent config bare outer s r = r ≡ (s, inr (new_context connection config parent))
  Outcome db parent config (refuses err) outer s r = r ≡ (s, inl err)
  Outcome db parent config opens outer s r = Opened db parent config s r

  finish-Opened :
      (db : Gorm S H) (parent : Option ℕ) (config : Config) (s : S) (h : H)
      (set : S × Option GoError)
      → (db.start s).1 ≡ inr h
      → set_isolation db (isolation_sql config.isolation_level) h (db.start s).0 ≡ set
      → Opened db parent config s (finish_begin db parent config h set)
  finish-Opened db parent config s h (t, some err) e is = inr (h, e, is)
  finish-Opened db parent config s h (t, none) e is = (h, e, is, refl)

  opened-Opened :
      (db : Gorm S H) (parent : Option ℕ) (config : Config) (s : S) (started : S × (GoError ⊎ H))
      → db.start s ≡ started
      → Opened db parent config s (opened db parent config started)
  opened-Opened db parent config s (t, inl err) e = inl e
  opened-Opened db parent config s (t, inr h) e =
      finish-Opened db parent config s h
        (set_isolation db (isolation_sql config.isolation_level) h t) (ap (λ r. r.1) e)
        (ap (λ r. set_isolation db (isolation_sql config.isolation_level) h r.0) e)

  begin_in-Outcome :
      (db : Gorm S H) (parent : Option ℕ) (config : Config) (p : Propagation) (active : Bool)
      (outer : Handle H) (s : S)
      → Outcome db parent config
          (asked p active)
          outer
          s
          (begin_in db parent config p active outer s)
  unfolding begin_in
  begin_in-Outcome db parent config Propagation.required true outer s = refl
  begin_in-Outcome db parent config Propagation.required false outer s =
      opened-Opened db parent config s (db.start s) refl
  begin_in-Outcome db parent config Propagation.requires_new active outer s =
      opened-Opened db parent config s (db.start s) refl
  begin_in-Outcome db parent config Propagation.supports true outer s = refl
  begin_in-Outcome db parent config Propagation.supports false outer s = refl
  begin_in-Outcome db parent config Propagation.not_supported active outer s = refl
  begin_in-Outcome db parent config Propagation.mandatory true outer s = refl
  begin_in-Outcome db parent config Propagation.mandatory false outer s = refl
  begin_in-Outcome db parent config Propagation.never true outer s = refl
  begin_in-Outcome db parent config Propagation.never false outer s = refl
  begin_in-Outcome db parent config Propagation.nested active outer s =
      opened-Opened db parent config s (db.start s) refl
  begin_in-Outcome db parent config Propagation.other true outer s = refl
  begin_in-Outcome db parent config Propagation.other false outer s =
      opened-Opened db parent config s (db.start s) refl

  -- Begin does what the propagation of its configuration asks, by whether the parent is active: it
  -- gives a new open context, of the parent and of the configuration, on the transaction of the
  -- parent or on the bare connection, or refuses, with the database as it was in these cases; or
  -- it starts a transaction, sets its isolation level and passes on the first error of the two, or
  -- gives such a context on just this transaction, with the timeout attached.
  pub begin-Outcome :
      (db : Gorm S H) (heap : Heap H) (parent : Option ℕ) (given : Option Config) (s : S)
      → Outcome db parent
          (config_or_default given)
          (asked (config_or_default given).propagation (is_active (parent_of heap parent)))
          (handle_of (parent_of heap parent))
          s
          (begin db heap parent given s)
  unfolding begin
  begin-Outcome db heap parent given s =
      let config = config_or_default given in
      begin_in-Outcome db parent config config.propagation (is_active (parent_of heap parent))
        (handle_of (parent_of heap parent)) s

  -- A result without an error is a new, open context of the parent and of the configuration.
  abbrev pub IsFresh : Option ℕ → Config → S × (BeginError ⊎ TransactionContext H) → Type 0
  IsFresh parent config (t, inl err) = Unit
  IsFresh parent config (t, inr tc) =
      (is_open tc ≡ true) × (tc.parent ≡ parent) × (tc.config ≡ config)

  Opened-IsFresh :
      (db : Gorm S H) (parent : Option ℕ) (config : Config) (s : S)
      (r : S × (BeginError ⊎ TransactionContext H))
      → Opened db parent config s r
      → IsFresh parent config r
  Opened-IsFresh db parent config s (t, inl err) o = tt
  Opened-IsFresh db parent config s (t, inr tc) (h, e, is, same) =
      (ap is_open same, ap (λ c. c.parent) same, ap (λ c. c.config) same)

  Outcome-IsFresh :
      (db : Gorm S H) (parent : Option ℕ) (config : Config) (ask : Ask) (outer : Handle H) (s : S)
      (r : S × (BeginError ⊎ TransactionContext H))
      → Outcome db parent config ask outer s r
      → IsFresh parent config r
  Outcome-IsFresh db parent config joins outer s r o =
      subst (IsFresh parent config) (sym o) (refl, refl, refl)
  Outcome-IsFresh db parent config bare outer s r o =
      subst (IsFresh parent config) (sym o) (refl, refl, refl)
  Outcome-IsFresh db parent config (refuses err) outer s r o =
      subst (IsFresh parent config) (sym o) tt
  Outcome-IsFresh db parent config opens outer s r o = Opened-IsFresh db parent config s r o

  pub begin-IsFresh :
      (db : Gorm S H) (heap : Heap H) (parent : Option ℕ) (given : Option Config) (s : S)
      → IsFresh parent (config_or_default given) (begin db heap parent given s)
  begin-IsFresh db heap parent given s =
      let config = config_or_default given in
      Outcome-IsFresh db parent config
        (asked config.propagation (is_active (parent_of heap parent)))
        (handle_of (parent_of heap parent)) s (begin db heap parent given s)
        (begin-Outcome db heap parent given s)
