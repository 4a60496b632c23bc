-- ===== src/Captcha/Clicks.antt =====
-- The match of clicks with stored points (ClickCaptcha.Verify of pkg/utils/captcha/click.go).
use ling_framework.Base.{
  ◌≡◌, refl, sym, ap, subst, Option-cases, ◌∙◌, Bool, true, false, Option, none, some, List, [],
  ◌∷◌, ◌++◌, arith, length, length-append, Bool-cases, if◌then◌else◌, inl, inr,
}
use ling_framework.Base.Int.{ℤ}
use ling_framework.Captcha.{Point, hits, pass_by, claim, claim_all, unmatched, match_clicks}

-- Each stored point is hit by an input of its own, and no input is left.
abbrev pub Matching : ℤ → List Point → List Point → Type 0
Matching tolerance [] inputs = inputs ≡ []
Matching tolerance (stored ∷ more) inputs =
    (pre : List Point) × (p : Point) × (post : List Point) × (inputs ≡ pre ++ p ∷ post)
    × (hits tolerance stored p ≡ true)
    × Matching tolerance more (pre ++ post)

-- The inputs without a mark.
abbrev free : List (Point × Bool) → List Point
free [] = []
free ((p, true) ∷ inputs) = free inputs
free ((p, false) ∷ inputs) = p ∷ free inputs

free-unmatched : (ps : List Point) → free (unmatched ps) ≡ ps
free-unmatched [] = refl
free-unmatched (p ∷ ps) = ap (◌∷◌ p) (free-unmatched ps)

abbrev Claimed : ℤ → Point → List Point → List Point → Type 0
Claimed tolerance stored before rest =
    (pre : List Point) × (p : Point) × (post : List Point) × (before ≡ pre ++ p ∷ post)
    × (rest ≡ pre ++ post)
    × (hits tolerance stored p ≡ true)

passed_by :
    (x : Point × Bool) (rest : Option (List (Point × Bool))) (later : List (Point × Bool))
    → pass_by x rest ≡ some later
    → (l : List (Point × Bool)) × (rest ≡ some l) × (x ∷ l ≡ later)
passed_by x none later h = cc
passed_by x (some l) later h = (l, refl, cc)

taken :
    (p : Point) (inputs later : List (Point × Bool)) (rest : Option (List (Point × Bool)))
    (b : Bool)
    → b ≡ true
    → (if b then some ((p, true) ∷ inputs) else rest) ≡ some later
    → some ((p, true) ∷ inputs) ≡ some later
taken p inputs later rest b e h =
    subst (λ w. (if w then some ((p, true) ∷ inputs) else rest) ≡ some later) e h

skipped :
    (p : Point) (inputs later : List (Point × Bool)) (rest : Option (List (Point × Bool)))
    (b : Bool)
    → b ≡ false
    → (if b then some ((p, true) ∷ inputs) else rest) ≡ some later
    → rest ≡ some later
skipped p inputs later rest b e h =
    subst (λ w. (if w then some ((p, true) ∷ inputs) else rest) ≡ some later) e h

behind_first :
    (tolerance : ℤ) (stored p : Point) (before rest : List Point)
    → Claimed tolerance stored before rest
    → Claimed tolerance stored (p ∷ before) (p ∷ rest)
behind_first tolerance stored p before rest (pre, q, post, e, f, hit) =
    (p ∷ pre, q, post, ap (◌∷◌ p) e, ap (◌∷◌ p) f, hit)

unwrapped : (xs ys : List (Point × Bool)) → some xs ≡ some ys → xs ≡ ys
unwrapped xs ys h = cc

none_left : (ps : List Point) → length ps ≡ 0 → ps ≡ []
none_left [] h = refl
none_left (p ∷ ps) h = absurd (omega arith)

claim-Claimed :
    (tolerance : ℤ) (stored : Point) (inputs later : List (Point × Bool))
    → claim tolerance stored inputs ≡ some later
    → Claimed tolerance stored (free inputs) (free later)
unfolding claim
claim-Claimed tolerance stored [] later h = cc
claim-Claimed tolerance stored ((p, true) ∷ inputs) later h =
    let (l, e, same) = passed_by (p, true) (claim tolerance stored inputs) later h in
    subst (λ w. Claimed tolerance stored (free inputs) (free w)) same
      (claim-Claimed tolerance stored inputs l e)
claim-Claimed tolerance stored ((p, false) ∷ inputs) later h =
    let rest = pass_by (p, false) (claim tolerance stored inputs) in
    elim (Bool-cases (hits tolerance stored p)) [
      | inl hit ↦
          let same : some ((p, true) ∷ inputs) ≡ some later = taken p inputs later rest _ hit h in
          ([], p, free inputs, refl, ap free (sym (unwrapped ((p, true) ∷ inputs) later same)), hit)
      | inr miss ↦
          let passed : pass_by (p, false) (claim tolerance stored inputs) ≡ some later =
            skipped p inputs later rest _ miss h in
          let (l, e, same) = passed_by (p, false) (claim tolerance stored inputs) later passed in
          subst (λ w. Claimed tolerance stored (p ∷ free inputs) (free w)) same
            (behind_first tolerance stored p (free inputs) (free l)
              (claim-Claimed tolerance stored inputs l e))
    ]

all_claimed :
    (tolerance : ℤ) (stored : List Point) (inputs : List (Point × Bool))
    → length stored ≡ length (free inputs)
    → claim_all tolerance stored inputs ≡ true
    → Matching tolerance stored (free inputs)
unfolding claim_all
all_claimed tolerance [] inputs size h = none_left (free inputs) (sym size)
all_claimed tolerance (s ∷ stored) inputs size h = elim (Option-cases (claim tolerance s inputs)) [
  | inl e ↦ absurd (ground (arith, e, h))
  | inr (later, e) ↦
      let (pre, p, post, before, rest, hit) = claim-Claimed tolerance s inputs later e in
      let shorter : length stored ≡ length (free later) = omega (
        arith,
        ap length before,
        ap length rest,
        length-append pre (p ∷ post),
        length-append pre post,
      ) in
      let go_on : claim_all tolerance stored later ≡ true = ground (arith, e, h) in
      (
        pre,
        p,
        post,
        before,
        hit,
        subst (Matching tolerance stored) rest (all_claimed tolerance stored later shorter go_on),
      )
]

-- ClickCaptcha accepts clicks only if each stored point is hit, within the tolerance, by a click of
-- its own and no click is left over.
pub match_clicks-Matching :
    (tolerance : ℤ) (stored inputs : List Point)
    → match_clicks tolerance stored inputs ≡ true
    → Matching tolerance stored inputs
unfolding match_clicks
match_clicks-Matching tolerance stored inputs h =
    let size : length stored ≡ length inputs = ground (arith, h) in
    let done : claim_all tolerance stored (unmatched inputs) ≡ true = ground (arith, h) in
    subst (Matching tolerance stored) (free-unmatched inputs) (
      all_claimed tolerance stored (unmatched inputs)
        (size ∙ ap length (sym (free-unmatched inputs))) done)
