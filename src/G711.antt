-- ===== src/G711.antt =====
-- The G.711 codecs, pkg/media/encoder/g711.go: a byte is a number below 256, int and int16 are
-- integers. A panic is `none`.
pub mod RoundTrip
mod Tests
use ling_framework.Base.{
  ℕ, zero, suc, ◌+◌, ◌-◌, ◌*◌, ◌/◌, ◌%◌, ◌^◌, Bool, true, false, Option, none, some, List, [], ◌∷◌,
  leb, ltb, nat_beq, bit_and, bit_or, bit_xor, if◌then◌else◌,
}
use ling_framework.Base.Int.{ℤ, pos, negsuc, sub_ℕ}

abbrev pub bias_value : ℕ
bias_value = 132

abbrev pub segment_boundaries : List ℕ
segment_boundaries = 255 ∷ 511 ∷ 1023 ∷ 2047 ∷ 4095 ∷ 8191 ∷ 16383 ∷ 32767 ∷ []

-- findSegmentIndex, called with all the boundaries: `idx` of them are behind.
unfoldable pub find_segment_index : ℕ → List ℕ → ℕ → ℕ
find_segment_index value [] idx = idx
find_segment_index value (b ∷ bs) idx =
    let later = find_segment_index value bs (idx + 1) in if leb value b then idx else later

-- The quantization bits of linear2alaw.
abbrev pub alaw_bits : ℕ → ℕ → ℕ
alaw_bits segment abs_value =
    if ltb segment 2
    then bit_and (abs_value / 16) 15
    else bit_and (abs_value / 2 ^ (segment + 3)) 15

abbrev pub alaw_segment : ℕ → ℕ → ℕ → ℕ
alaw_segment segment sign_mask abs_value =
    if leb 8 segment
    then bit_xor 127 sign_mask
    else bit_xor (bit_or (segment * 16) (alaw_bits segment abs_value)) sign_mask

unfoldable pub linear2alaw : ℤ → ℕ
linear2alaw (pos n) = alaw_segment (find_segment_index n segment_boundaries 0) 213 n
linear2alaw (negsuc n) =
    if ltb 8 (n + 1)
    then alaw_segment (find_segment_index (n + 1 - 8) segment_boundaries 0) 85 (n + 1 - 8)
    else 213

-- The low 16 bits, and the int16 that they are.
abbrev pub to_int16 : ℕ → ℤ
to_int16 n = let r = n % 65536 in if ltb r 32768 then pos r else negsuc (65535 - r)

abbrev pub alaw_magnitude : ℕ → ℕ → ℕ
alaw_magnitude zero bits = bits + 8
alaw_magnitude (suc zero) bits = bits + 264
alaw_magnitude (suc (suc segment)) bits = (bits + 264) * 2 ^ (segment + 1)

unfoldable pub alaw2linear : ℕ → ℤ
alaw2linear alaw_byte =
    let a = bit_xor alaw_byte 85 in
    let temp = alaw_magnitude (bit_and a 112 / 16) (bit_and a 15 * 16) in
    if nat_beq (bit_and a 128) 0 then to_int16 (65536 - temp % 65536) else to_int16 temp

abbrev pub ulaw_segment : ℕ → ℕ → ℕ → ℕ
ulaw_segment segment sign_mask value =
    if leb 8 segment
    then bit_xor 127 sign_mask
    else bit_xor (bit_or (segment * 16) (bit_and (value / 2 ^ (segment + 3)) 15)) sign_mask

unfoldable pub linear2ulaw : ℤ → ℕ
linear2ulaw (pos n) =
    let value = n + bias_value in
    ulaw_segment (find_segment_index value segment_boundaries 0) 255 value
linear2ulaw (negsuc n) =
    let value = bias_value + (n + 1) in
    ulaw_segment (find_segment_index value segment_boundaries 0) 127 value

unfoldable pub ulaw2linear : ℕ → ℤ
ulaw2linear ulaw_byte =
    let u = 255 - ulaw_byte in
    let temp = (bit_and u 15 * 8 + bias_value) * 2 ^ (bit_and u 112 / 16) in
    if nat_beq (bit_and u 128) 0 then sub_ℕ temp bias_value else sub_ℕ bias_value temp

-- byte(x) and byte(x >> 8): of the 16 bits of x in two's complement.
abbrev pub bits16 : ℤ → ℕ
bits16 (pos n) = n % 65536
bits16 (negsuc n) = 65535 - n % 65536

abbrev pub low_byte : ℤ → ℕ
low_byte z = bits16 z % 256

abbrev pub high_byte : ℤ → ℕ
high_byte z = bits16 z / 256

unfoldable pub pcma2pcm : List ℕ → List ℕ
pcma2pcm [] = []
pcma2pcm (b ∷ bs) = low_byte (alaw2linear b) ∷ high_byte (alaw2linear b) ∷ pcma2pcm bs

abbrev pub cons : ℕ → Option (List ℕ) → Option (List ℕ)
cons b none = none
cons b (some bs) = some (b ∷ bs)

-- int16(hi)<<8 | int16(lo)
abbrev pub sample : ℕ → ℕ → ℤ
sample lo hi = to_int16 (bit_or (hi * 256) lo)

-- The read of a second byte that is not there panics.
unfoldable pub pcm2pcma : List ℕ → Option (List ℕ)
pcm2pcma [] = some []
pcm2pcma (lo ∷ []) = none
pcm2pcma (lo ∷ hi ∷ rest) = cons (linear2alaw (sample lo hi)) (pcm2pcma rest)

unfoldable pub pcmu2pcm : List ℕ → List ℕ
pcmu2pcm [] = []
pcmu2pcm (b ∷ bs) = low_byte (ulaw2linear b) ∷ high_byte (ulaw2linear b) ∷ pcmu2pcm bs

unfoldable pub pcm2pcmu : List ℕ → Option (List ℕ)
pcm2pcmu [] = some []
pcm2pcmu (lo ∷ []) = none
pcm2pcmu (lo ∷ hi ∷ rest) = cons (linear2ulaw (sample lo hi)) (pcm2pcmu rest)

-- EncodePCMA
abbrev pub encode_pcma : List ℕ → Option (List ℕ)
encode_pcma = pcm2pcma
