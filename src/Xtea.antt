-- ===== src/Xtea.antt =====
-- src/xtea.cpp: the block cipher of the protocol. A word is a uint32_t, a number below 2 ^ 32; the
-- data is the list of the `length` bytes that the cipher is given. The loop over blocks reads and
-- writes eight bytes at a time: where fewer than eight are left it goes past the end, which is
-- `none` here.
pub mod Words
pub mod Block
pub mod Schedule
mod Tests
use Prim.Native.Nat.{bit_and, bit_or, bit_xor}
use mathlib.Core.Option
use otxserver.Common.{
  ℕ, zero, suc, ◌+◌, ◌-◌, ◌*◌, ◌/◌, ◌%◌, ◌^◌, ◌≤◌, ◌<◌, min, max, ◌≡◌, refl, sym, ap, ◌∙◌, ◌≢◌, ◌↔◌,
  ◌⊎◌, inl, inr, Bool, true, false, not, ◌&&◌, ◌||◌, Option, none, some, List, [], ◌∷◌, ◌++◌, map,
  arith, ltb, leb, ◌==◌, if◌then◌else◌, ltb→lt, lt→ltb, leb→le, ==_iff, ==_refl, Bool-cases,
  Option-cases, dist, length, get_elem?, get_or, set, take, drop, length-append, take-append,
  drop-append, All, All-append,
}

abbrev pub delta : ℕ
delta = 0x9E3779B9

-- uint32_t arithmetic
unfoldable pub add32 : ℕ → ℕ → ℕ
add32 a b = (a + b) % 2 ^ 32

unfoldable pub sub32 : ℕ → ℕ → ℕ
sub32 a b = (a + 2 ^ 32 - b) % 2 ^ 32

unfoldable pub xor32 : ℕ → ℕ → ℕ
xor32 a b = bit_xor a b % 2 ^ 32

-- `(x << 4 ^ x >> 5) + x`
unfoldable pub mix : ℕ → ℕ
unfolding add32 xor32
mix x = add32 (xor32 (x * 2 ^ 4 % 2 ^ 32) (x / 2 ^ 5)) x

-- `b0 | b1 << 8 | b2 << 16 | b3 << 24`
unfoldable pub load : ℕ → ℕ → ℕ → ℕ → ℕ
load b0 b1 b2 b3 = bit_or (bit_or (bit_or b0 (b1 * 2 ^ 8)) (b2 * 2 ^ 16)) (b3 * 2 ^ 24)

-- The byte of `w` at `shift` bits.
abbrev pub byte_at : ℕ → ℕ → ℕ
byte_at w shift = w / 2 ^ shift % 2 ^ 8

unfoldable pub store : ℕ → List ℕ → List ℕ
store w rest = byte_at w 0 ∷ byte_at w 8 ∷ byte_at w 16 ∷ byte_at w 24 ∷ rest

-- `apply_rounds`, with `round` the lambda that changes the two halves of a block.
unfoldable pub apply_rounds : (ℕ × ℕ → ℕ × ℕ) → List ℕ → Option (List ℕ)
apply_rounds round [] = some []
apply_rounds round (b0 ∷ b1 ∷ b2 ∷ b3 ∷ b4 ∷ b5 ∷ b6 ∷ b7 ∷ rest) =
    let (left, right) = round (load b0 b1 b2 b3, load b4 b5 b6 b7) in
    Option.map (λ done. store left (store right done)) (apply_rounds round rest)
apply_rounds round _ = none

-- The bodies of the two lambdas, with the round keys that they name.
unfoldable pub encrypt_round : ℕ → ℕ → ℕ × ℕ → ℕ × ℕ
encrypt_round k0 k1 (left, right) =
    let left' = add32 left (xor32 (mix right) k0) in (left', add32 right (xor32 (mix left') k1))

unfoldable pub decrypt_round : ℕ → ℕ → ℕ × ℕ → ℕ × ℕ
decrypt_round k0 k1 (left, right) =
    let right' = sub32 right (xor32 (mix left) k1) in (sub32 left (xor32 (mix right') k0), right')

-- `for (i = 0; i < k.size(); i += 2)` over the round keys.
unfoldable pub encrypt : List ℕ → List ℕ → Option (List ℕ)
encrypt [] bytes = some bytes
encrypt (k0 ∷ k1 ∷ k) bytes = Option.bind (apply_rounds (encrypt_round k0 k1) bytes) (encrypt k)
encrypt _ bytes = none

-- `for (i = k.size() - 1; i > 0; i -= 2)`: the last pair of round keys comes first.
unfoldable pub decrypt : List ℕ → List ℕ → Option (List ℕ)
decrypt [] bytes = some bytes
decrypt (k0 ∷ k1 ∷ k) bytes = Option.bind (decrypt k bytes) (apply_rounds (decrypt_round k0 k1))
decrypt _ bytes = none

-- `expand_key`, the loop from `i` with `sum` and `next_sum`, for the `n` pairs that are left.
unfoldable pub expand_from : ℕ → (ℕ → ℕ) → ℕ → ℕ → List ℕ
unfolding add32
expand_from zero k sum next_sum = []
expand_from (suc n) k sum next_sum =
    add32 sum (k (bit_and sum 3))
    ∷ add32 next_sum (k (bit_and (next_sum / 2 ^ 11) 3))
    ∷ expand_from n k next_sum (add32 next_sum delta)

-- The four words of the key, by index.
unfoldable pub expand_key : (ℕ → ℕ) → List ℕ
unfolding expand_from
expand_key k = expand_from 32 k 0 (add32 0 delta)
