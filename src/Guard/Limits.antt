-- ===== src/Guard/Limits.antt =====
-- CheckIPRateLimit of LoginSecurityManager over the attempts of an address
-- (pkg/utils/security/login_security.go).
use ling_framework.Base.{
  ℕ, ◌+◌, ◌≤◌, ◌<◌, ◌≡◌, refl, ap, ◌∙◌, Bool, true, Option, none, some, List, [], ◌∷◌, ◌++◌, arith,
  Str, codes, length, map, ltb, subst,
}
use ling_framework.Base.Int.{pos, inc64-pos, max_int64}
use ling_framework.Base.Time.{Time}
use ling_framework.Cache.{Value, int}
use ling_framework.Guard.{CacheOps, minute}
use ling_framework.Guard.Login.{LoginSecurityManager, check_ip_rate_limit}
use ling_framework.Guard.Counted.{
  Close, last_of, Counted, Shows, Counted-Shows, Shows-get, set-Counted,
}

module _ {C F O : Type 0} (ops : CacheOps C (Value F O)) (m : LoginSecurityManager) (ip : Str) where
  -- The key of the address, and the checks of attempts at instants, one after the other.
  abbrev pub login_key : Str
  login_key = codes "login:ip:" ++ ip

  abbrev pub login_attempts : List Time → Option C → List Bool × Option C
  login_attempts [] c = ([], c)
  login_attempts (t ∷ ts) c =
      let r = check_ip_rate_limit ops m t ip c in
      let later = login_attempts ts r.1 in (r.0 ∷ later.0, later.1)

  counted_after : ℕ → Time → C → C
  counted_after n now c =
      ops.set now login_key (int (pos (n + 1))) (pos minute) (ops.get now login_key c).1

  -- Below the limit an attempt passes and is counted.
  check-below :
      (n limit now : ℕ) (c : C)
      → m.ip_rate_limit_per_minute ≡ pos limit
      → Shows ops login_key n now c
      → n < limit
      → n < max_int64
      → check_ip_rate_limit ops m now ip (some c) ≡ (true, some (counted_after n now c))
  unfolding check_ip_rate_limit counted_after
  check-below n limit now c at_limit shows below fits =
      rw (Shows-get ops login_key n now c shows, at_limit, inc64-pos n fits) (ground arith)

  counted_after-Counted :
      (n now : ℕ) (c : C) → Counted ops login_key minute (n + 1) now (counted_after n now c)
  unfolding counted_after
  counted_after-Counted n now c =
      set-Counted ops login_key minute (n + 1) now (ops.get now login_key c).1 (omega arith)

  attempts-step :
      (t : Time) (ts : List Time) (c c' : Option C) (b : Bool)
      → check_ip_rate_limit ops m t ip c ≡ (b, c')
      → login_attempts (t ∷ ts) c ≡ (b ∷ (login_attempts ts c').0, (login_attempts ts c').1)
  attempts-step t ts c c' b h = rw h refl

  -- Attempts up to the limit pass, and leave their number in the counter.
  attempts-below :
      (n limit t : ℕ) (ts : List Time) (c : C)
      → m.ip_rate_limit_per_minute ≡ pos limit
      → limit < max_int64
      → Shows ops login_key n t c
      → Close minute t ts
      → n + length (t ∷ ts) ≤ limit
      → (c' : C) × (login_attempts (t ∷ ts) (some c) ≡ (map (λ _. true) (t ∷ ts), some c'))
        × Counted ops login_key minute (n + length (t ∷ ts)) (last_of t ts) c'
  attempts-below n limit t [] c at_limit fits shows close le = (
    counted_after n t c,
    rw (check-below n limit t c at_limit shows (omega (arith, le)) (omega (arith, le, fits))) refl,
    counted_after-Counted n t c,
  )
  attempts-below n limit t (t' ∷ ts) c at_limit fits shows close le =
      let shows' : Shows ops login_key (n + 1) t' (counted_after n t c) =
        Counted-Shows ops login_key minute (n + 1) t t' (counted_after n t c)
          (counted_after-Counted n t c) close.0 close.1 in
      let rest =
        attempts-below (n + 1) limit t' ts (counted_after n t c) at_limit fits shows' close.2
          (omega (arith, le)) in
      (
        rest.0,
        attempts-step t (t' ∷ ts) (some c) (some (counted_after n t c)) true
              (check-below n limit t c at_limit shows (omega (arith, le)) (omega (arith, le, fits)))
            ∙ ap (λ r. (true ∷ r.0, r.1)) rest.1,
        subst (λ k. Counted ops login_key minute k (last_of t' ts) rest.0) (omega arith) rest.2,
      )

  -- What an attempt finds after a count.
  check-Counted :
      (limit last now : ℕ) (c : C)
      → m.ip_rate_limit_per_minute ≡ pos limit
      → 0 < limit
      → Counted ops login_key minute limit last c
      → last ≤ now
      → (check_ip_rate_limit ops m now ip (some c)).0 ≡ ltb (last + minute) now
  unfolding check_ip_rate_limit
  check-Counted limit last now c at_limit positive counted le =
      rw (ops.get-peek, counted now le, at_limit) (ground arith)

  -- Attempts of one address, each at most a minute after the one before, and as many as the limit:
  -- all pass, if the cache had no count at the first. After them, an attempt passes exactly if it
  -- comes more than a minute after the last of them, however long ago the first was.
  pub attempts-limit :
      (limit t now : ℕ) (ts : List Time) (c : C)
      → m.ip_rate_limit_per_minute ≡ pos limit
      → limit < max_int64
      → ops.peek t login_key c ≡ none
      → Close minute t ts
      → length (t ∷ ts) ≡ limit
      → last_of t ts ≤ now
      → ((login_attempts (t ∷ ts) (some c)).0 ≡ map (λ _. true) (t ∷ ts))
        × ((check_ip_rate_limit ops m now ip (login_attempts (t ∷ ts) (some c)).1).0
            ≡ ltb (last_of t ts + minute) now)
  attempts-limit limit t now ts c at_limit fits absent close full le =
      let shows : Shows ops login_key 0 t c = rw absent refl in
      let run = attempts-below 0 limit t ts c at_limit fits shows close (omega (arith, full)) in
      let counted =
        subst (λ k. Counted ops login_key minute k (last_of t ts) run.0) (omega (arith, full))
          run.2 in
      (
        ap (λ r. r.0) run.1,
        ap (λ r. (check_ip_rate_limit ops m now ip r.1).0) run.1
            ∙ check-Counted limit (last_of t ts) now run.0 at_limit (omega (arith, full)) counted
                le,
      )
