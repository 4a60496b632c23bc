-- ===== src/G711/RoundTrip.antt =====
-- Decoding and encoding again (pkg/media/encoder/g711.go).
use ling_framework.Base.{
  ℕ, zero, ◌+◌, ◌*◌, ◌<◌, ◌≡◌, refl, ap, subst, ◌∙◌, Bool, true, false, none, some, List, [], ◌∷◌,
  map, arith, All, length, suc, nat_beq, nat_beq_iff, Bool-cases, inl, inr, if◌then◌else◌,
}
use ling_framework.G711.{
  linear2alaw, alaw2linear, linear2ulaw, ulaw2linear, pcma2pcm, pcm2pcma, pcmu2pcm, pcm2pcmu,
  sample, low_byte, high_byte, cons, find_segment_index,
}

-- The test holds below a number.
all_below : ℕ → (ℕ → Bool) → Bool
all_below zero test = true
all_below (suc n) test = let rest = all_below n test in if test n then rest else false

all_below_lem :
    (n : ℕ) (test : ℕ → Bool) → all_below n test ≡ true → (b : ℕ) → b < n → test b ≡ true
unfolding all_below
all_below_lem zero test h b k = absurd (omega arith)
all_below_lem (suc n) test h b k = elim (Bool-cases (nat_beq n b)) [
  | inl e ↦ subst (λ w. test w ≡ true) ((nat_beq_iff n b).0 e) (ground arith)
  | inr e ↦ all_below_lem n test (ground arith) b (ground arith)
]

-- The byte that stands for the same sample: of the two around zero the encoders use only one.
abbrev pub alaw_canonical : ℕ → ℕ
alaw_canonical b = if nat_beq b 85 then 213 else b

abbrev pub ulaw_canonical : ℕ → ℕ
ulaw_canonical b = if nat_beq b 127 then 255 else b

abbrev through_alaw : ℕ → ℕ
through_alaw b = linear2alaw (sample (low_byte (alaw2linear b)) (high_byte (alaw2linear b)))

abbrev through_ulaw : ℕ → ℕ
through_ulaw b = linear2ulaw (sample (low_byte (ulaw2linear b)) (high_byte (ulaw2linear b)))

alaw_table : all_below 256 (λ b. nat_beq (through_alaw b) (alaw_canonical b)) ≡ true
unfolding all_below linear2alaw alaw2linear find_segment_index
alaw_table = refl

ulaw_table : all_below 256 (λ b. nat_beq (through_ulaw b) (ulaw_canonical b)) ≡ true
unfolding all_below linear2ulaw ulaw2linear find_segment_index
ulaw_table = refl

abbrev pub AreBytes : List ℕ → Type 0
AreBytes bs = All (λ b. b < 256) bs

-- A-law data, decoded to PCM and encoded again, comes back without a panic and byte by byte, but for
-- the byte 0x55 (the sample -8), which comes back as 0xD5 (the sample 8).
pub pcm2pcma-pcma2pcm :
    (bs : List ℕ) → AreBytes bs → pcm2pcma (pcma2pcm bs) ≡ some (map alaw_canonical bs)
unfolding pcm2pcma pcma2pcm
pcm2pcma-pcma2pcm [] h = refl
pcm2pcma-pcma2pcm (b ∷ bs) h =
    let here =
      (nat_beq_iff (through_alaw b) (alaw_canonical b)).0
        (all_below_lem 256 (λ w. nat_beq (through_alaw w) (alaw_canonical w)) alaw_table b h.0) in
    ap (λ w. cons w (pcm2pcma (pcma2pcm bs))) here
    ∙ ap (cons (alaw_canonical b)) (pcm2pcma-pcma2pcm bs h.1)

-- µ-law data, decoded to PCM and encoded again, comes back without a panic and byte by byte, but for
-- the byte 0x7F, the negative zero, which comes back as 0xFF.
pub pcm2pcmu-pcmu2pcm :
    (bs : List ℕ) → AreBytes bs → pcm2pcmu (pcmu2pcm bs) ≡ some (map ulaw_canonical bs)
unfolding pcm2pcmu pcmu2pcm
pcm2pcmu-pcmu2pcm [] h = refl
pcm2pcmu-pcmu2pcm (b ∷ bs) h =
    let here =
      (nat_beq_iff (through_ulaw b) (ulaw_canonical b)).0
        (all_below_lem 256 (λ w. nat_beq (through_ulaw w) (ulaw_canonical w)) ulaw_table b h.0) in
    ap (λ w. cons w (pcm2pcmu (pcmu2pcm bs))) here
    ∙ ap (cons (ulaw_canonical b)) (pcm2pcmu-pcmu2pcm bs h.1)

-- Pcm2pcma gives one byte for each two of an even number of bytes, and it panics on an odd number.
pub pcm2pcma-length :
    (k : ℕ) (pcm : List ℕ)
    → (length pcm ≡ 2 * k → (out : List ℕ) × (pcm2pcma pcm ≡ some out) × (length out ≡ k))
      × (length pcm ≡ 2 * k + 1 → pcm2pcma pcm ≡ none)
unfolding pcm2pcma
pcm2pcma-length k [] = (λ e. ([], refl, omega arith), λ e. absurd (omega arith))
pcm2pcma-length k (lo ∷ []) = (λ e. absurd (omega arith), λ e. refl)
pcm2pcma-length zero (lo ∷ hi ∷ rest) = (λ e. absurd (omega arith), λ e. absurd (omega arith))
pcm2pcma-length (suc k) (lo ∷ hi ∷ rest) =
    let b = linear2alaw (sample lo hi) in
    let ih = pcm2pcma-length k rest in
    (
      λ e. let (out, done, size) = ih.0 (omega arith) in (b ∷ out, ap (cons b) done, ap suc size),
      λ e. ap (cons b) (ih.1 (omega arith)),
    )
