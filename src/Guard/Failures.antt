-- ===== src/Guard/Failures.antt =====
-- The counts of failures of an address or of an account: RecordRegistrationAttempt with
-- CheckFailedAttempts, and RecordFailedLogin (registration_guard.go and login_security.go of
-- pkg/utils/security).
use ling_framework.Base.{
  ℕ, ◌+◌, ◌≤◌, ◌<◌, ◌≡◌, refl, sym, ap, ◌∙◌, false, ◌&&◌, Option, none, some, List, [], ◌∷◌, ◌++◌,
  arith, Str, codes, length, leb, subst, if◌then◌else◌,
}
use ling_framework.Base.Int.{pos, inc64, inc64-pos, max_int64}
use ling_framework.Base.Time.{Time}
use ling_framework.Cache.{Value, int}
use ling_framework.Guard.{CacheOps}
use ling_framework.Guard.Registration.{RegistrationGuard, too_many_failed}
use ling_framework.Guard.Attempts.{count_up, check_failed_attempts, record_registration_attempt}
use ling_framework.Guard.Counted.{
  Close, last_of, Counted, Shows, Shows-get, set-Counted, step_all, step_all-Counted,
}

module _ {C F O : Type 0} (ops : CacheOps C (Value F O)) where
  count_up-Counted :
      (key : Str) (life n t : ℕ) (c : C)
      → 0 < life
      → Shows ops key n t c
      → n < max_int64
      → Counted ops key life (n + 1) t (count_up ops t key (pos life) c)
  count_up-Counted key life n t c positive shows fits =
      subst
        (λ k. Counted ops key life (n + 1) t (ops.set t key (int k) (pos life) (ops.get t key c).1))
        (sym (ap inc64 (Shows-get ops key n t c shows) ∙ inc64-pos n fits))
        (set-Counted ops key life (n + 1) t (ops.get t key c).1 positive)

  module _ {Net : Type 0} (rg : RegistrationGuard Net) (ip : Str) where
    abbrev pub failed_key : Str
    failed_key = codes "reg:failed:ip:" ++ ip

    -- A failure at each of some instants.
    abbrev pub fail_all : List Time → Option C → Option C
    fail_all [] c = c
    fail_all (t ∷ ts) c = fail_all ts (record_registration_attempt ops rg t ip false c)

    fail_all-step_all :
        (life : ℕ) (ts : List Time) (c : C)
        → rg.failed_attempt_window ≡ pos life
        → fail_all ts (some c)
          ≡ some (step_all ops failed_key (λ t. count_up ops t failed_key (pos life)) ts c)
    unfolding record_registration_attempt
    fail_all-step_all life [] c window = refl
    fail_all-step_all life (t ∷ ts) c window =
        rw window (fail_all-step_all life ts (count_up ops t failed_key (pos life) c) window)

    check-Counted :
        (life limit n last now : ℕ) (c : C)
        → rg.max_failed_attempts_per_ip ≡ pos limit
        → 0 < limit
        → Counted ops failed_key life n last c
        → last ≤ now
        → (check_failed_attempts ops rg now ip (some c)).0
          ≡ (if leb now (last + life) && leb limit n then some too_many_failed else none)
    unfolding check_failed_attempts
    check-Counted life limit n last now c at_limit positive counted le =
        rw (ops.get-peek, counted now le, at_limit) (ground arith)

    -- Failures of one address, each at most a window after the one before, on a cache that had no
    -- count at the first: from the last of them on, CheckFailedAttempts refuses the address exactly
    -- while the window after the last failure runs and they are as many as the limit or more.
    pub check_failed_attempts-fail_all :
        (life limit t now : ℕ) (ts : List Time) (c : C)
        → rg.failed_attempt_window ≡ pos life
        → 0 < life
        → rg.max_failed_attempts_per_ip ≡ pos limit
        → 0 < limit
        → ops.peek t failed_key c ≡ none
        → Close life t ts
        → length (t ∷ ts) ≤ max_int64
        → last_of t ts ≤ now
        → (check_failed_attempts ops rg now ip (fail_all (t ∷ ts) (some c))).0 ≡ (
            if leb now (last_of t ts + life) && leb limit (length (t ∷ ts))
            then some too_many_failed
            else none)
    check_failed_attempts-fail_all life limit t now ts c window lives at_limit positive absent close
          fits le =
        let counted =
          step_all-Counted ops failed_key (λ t. count_up ops t failed_key (pos life)) life max_int64
            (λ n t c shows. count_up-Counted failed_key life n t c lives shows) 0 t ts c
            (rw absent refl) close (omega (arith, fits)) in
        ap (λ s. (check_failed_attempts ops rg now ip s).0)
          (fail_all-step_all life (t ∷ ts) c window)
        ∙ check-Counted life limit (length (t ∷ ts)) (last_of t ts) now
            (step_all ops failed_key (λ t. count_up ops t failed_key (pos life)) (t ∷ ts) c)
            at_limit positive
            (subst
              (λ k.
                Counted ops failed_key life k (last_of t ts)
                  (step_all ops failed_key (λ t. count_up ops t failed_key (pos life)) (t ∷ ts) c))
              (omega arith) counted)
            le
