-- ===== src/G711/Tests.antt =====
-- Tests of the codecs on samples and on short data.
use ling_framework.Base.{ℕ, ◌*◌, ◌+◌, ◌≡◌, refl, none, some, List, [], ◌∷◌, arith, length}
use ling_framework.Base.Int.{pos, negsuc}
use ling_framework.G711.{linear2alaw, linear2ulaw, pcma2pcm, pcm2pcma, find_segment_index}
use ling_framework.G711.RoundTrip.{pcm2pcma-pcma2pcm, pcm2pcma-length}

-- -8 is encoded as 8 is.
minus_eight : linear2alaw (negsuc 7) ≡ linear2alaw (pos 8)
unfolding linear2alaw find_segment_index
minus_eight = refl

loudest : linear2ulaw (pos 32767) ≡ 128
unfolding linear2ulaw find_segment_index
loudest = refl

pcm2pcma-pcma2pcm_example : pcm2pcma (pcma2pcm (85 ∷ 17 ∷ [])) ≡ some (213 ∷ 17 ∷ [])
pcm2pcma-pcma2pcm_example = pcm2pcma-pcma2pcm (85 ∷ 17 ∷ []) (omega arith, (omega arith, tt))

abbrev two_bytes : List ℕ
two_bytes = 1 ∷ 2 ∷ []

pcm2pcma-length_example :
    (length two_bytes ≡ 2 * 1 → (out : List ℕ) × (pcm2pcma two_bytes ≡ some out) × (length out ≡ 1))
    × (length two_bytes ≡ 2 * 1 + 1 → pcm2pcma two_bytes ≡ none)
pcm2pcma-length_example = pcm2pcma-length 1 two_bytes
