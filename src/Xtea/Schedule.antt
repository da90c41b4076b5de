-- ===== src/Xtea/Schedule.antt =====
-- The key schedule of src/xtea.cpp, and the cipher under it.
use Prim.Native.Nat.{bit_and}
use otxserver.Common.{
  ℕ, zero, suc, ◌+◌, ◌*◌, ◌/◌, ◌%◌, ◌^◌, ◌≡◌, refl, ap, some, List, [], ◌∷◌, arith, length, All,
}
use otxserver.Xtea.{delta, add32, expand_from, expand_key, encrypt, decrypt}
use otxserver.Xtea.Words.{IsByte}
use otxserver.Xtea.Block.{Pairs, Blocks-All, Blocks-of, encrypt-RoundTrip}

expand_from-Pairs : (n : ℕ) (k : ℕ → ℕ) (sum next_sum : ℕ) → Pairs (expand_from n k sum next_sum)
unfolding expand_from
expand_from-Pairs zero k sum next_sum = tt
expand_from-Pairs (suc n) k sum next_sum = expand_from-Pairs n k next_sum (add32 next_sum delta)

-- For every key and all bytes whose number is a multiple of eight, `encrypt` under the expanded key
-- succeeds with as many bytes, each below 256, and `decrypt` under the same key gives the bytes back.
pub decrypt-encrypt :
    (k : ℕ → ℕ) (bytes : List ℕ)
    → All IsByte bytes
    → length bytes % 8 ≡ 0
    → (out : List ℕ) × (encrypt (expand_key k) bytes ≡ some out)
      × (decrypt (expand_key k) out ≡ some bytes)
      × (length out ≡ length bytes)
      × All IsByte out
unfolding expand_key
decrypt-encrypt k bytes h e =
    let r =
      encrypt-RoundTrip (expand_key k) bytes (expand_from-Pairs 32 k 0 (add32 0 delta))
        (Blocks-of bytes h e) in
    (r.out, r.runs, r.back, r.size, Blocks-All r.out r.blocks)

-- The key schedule in closed form: of the `i`-th pair of round keys the first is made from
-- `i * delta`, the second from `(i + 1) * delta`, modulo 2 ^ 32.
abbrev pub sum_at : ℕ → ℕ
sum_at i = i * delta % 2 ^ 32

abbrev pub schedule : ℕ → (ℕ → ℕ) → ℕ → List ℕ
schedule zero k i = []
schedule (suc n) k i =
    (sum_at i + k (bit_and (sum_at i) 3)) % 2 ^ 32
    ∷ (sum_at (i + 1) + k (bit_and (sum_at (i + 1) / 2 ^ 11) 3)) % 2 ^ 32
    ∷ schedule n k (i + 1)

expand_from-eq-schedule :
    (n : ℕ) (k : ℕ → ℕ) (i : ℕ) → expand_from n k (sum_at i) (sum_at (i + 1)) ≡ schedule n k i
unfolding expand_from add32
expand_from-eq-schedule zero k i = refl
expand_from-eq-schedule (suc n) k i =
    let next : add32 (sum_at (i + 1)) delta ≡ sum_at (i + 1 + 1) = omega arith in
    rw (next, expand_from-eq-schedule n k (i + 1))

-- The expanded key is the 64 words of the closed form: the loop, which carries the two sums along,
-- computes each of them modulo 2 ^ 32.
pub expand_key-eq-schedule :
    (k : ℕ → ℕ) → (expand_key k ≡ schedule 32 k 0) × (length (expand_key k) ≡ 64)
unfolding expand_key add32
expand_key-eq-schedule k = let e = expand_from-eq-schedule 32 k 0 in (e, ap length e)
