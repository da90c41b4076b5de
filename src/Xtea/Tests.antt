-- ===== src/Xtea/Tests.antt =====
-- Runs of the cipher.
use otxserver.Common.{ℕ, ◌+◌, ◌*◌, ◌^◌, ◌<◌, ◌≡◌, refl, some, List, [], ◌∷◌, arith, length, All}
use otxserver.Xtea.{expand_key, encrypt, decrypt}
use otxserver.Xtea.Schedule.{decrypt-encrypt}

abbrev sample_key : ℕ → ℕ
sample_key i = i * 0x01020304 + 7

abbrev sample : List ℕ
sample = 0 ∷ 255 ∷ 17 ∷ 3 ∷ 90 ∷ 128 ∷ 64 ∷ 1 ∷ []

decrypt-encrypt_example :
    (out : List ℕ) × (encrypt (expand_key sample_key) sample ≡ some out)
    × (decrypt (expand_key sample_key) out ≡ some sample)
    × (length out ≡ length sample)
    × All (λ b. b < 2 ^ 8) out
decrypt-encrypt_example = decrypt-encrypt sample_key sample (omega arith) refl
