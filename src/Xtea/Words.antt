-- ===== src/Xtea/Words.antt =====
-- The reading and writing of a little-endian word in `apply_rounds` of src/xtea.cpp.
use Prim.Native.Nat.{bit_or, digits, bit_or-bitwise}
use otxserver.Common.{ℕ, zero, suc, ◌+◌, ◌*◌, ◌/◌, ◌%◌, ◌^◌, ◌≤◌, ◌<◌, max, ◌≡◌, refl, arith}
use otxserver.Xtea.{load, byte_at, add32, sub32, xor32}

or_digits_fuel :
    (n m a b : ℕ) → a ≤ n → a ≤ m → digits (λ b. b) max n a b ≡ digits (λ b. b) max m a b
or_digits_fuel zero zero a b p q = refl
or_digits_fuel zero (suc m) zero b p q = refl
or_digits_fuel zero (suc m) (suc a) b p q = absurd (omega arith)
or_digits_fuel (suc n) zero zero b p q = refl
or_digits_fuel (suc n) zero (suc a) b p q = absurd (omega arith)
or_digits_fuel (suc n) (suc m) zero b p q = refl
or_digits_fuel (suc n) (suc m) (suc a) b p q =
    omega (arith, or_digits_fuel n m (suc a / 2) (b / 2) (omega arith) (omega arith))

zero-bit_or : (b : ℕ) → bit_or 0 b ≡ b
zero-bit_or b = bit_or-bitwise 0 b

bit_or_step : (a b : ℕ) → bit_or a b ≡ bit_or (a / 2) (b / 2) * 2 + max (a % 2) (b % 2)
bit_or_step zero b = omega (arith, zero-bit_or b, zero-bit_or (b / 2))
bit_or_step (suc a) b = omega (
  arith,
  bit_or-bitwise (suc a) b,
  bit_or-bitwise (suc a / 2) (b / 2),
  or_digits_fuel a (suc a / 2) (suc a / 2) (b / 2) (omega arith) (omega arith),
)

-- `b << k` by doubling, which computes at a numeral `k`.
abbrev double : ℕ → ℕ → ℕ
double zero b = b
double (suc k) b = 2 * double k b

-- Above `k` low bits the digits do not meet, and `|` is a sum.
bit_or-double : (k a b : ℕ) → a < double k 1 → bit_or a (double k b) ≡ a + double k b
bit_or-double zero zero b h = omega (arith, zero-bit_or b)
bit_or-double zero (suc a) b h = absurd (omega arith)
bit_or-double (suc k) a b h =
    rw (bit_or_step a (2 * double k b), half)
      (omega (arith, bit_or-double k (a / 2) b (omega arith)))
  where
    half : 2 * double k b / 2 ≡ double k b
    half = omega arith

or_shift : (k a b s : ℕ) → s ≡ double k b → a < double k 1 → bit_or a s ≡ a + s
or_shift k a b s e h = rw e (bit_or-double k a b h)

abbrev pub IsByte : ℕ → Type 0
IsByte b = b < 2 ^ 8

pub load_lem :
    (b0 b1 b2 b3 : ℕ)
    → IsByte b0
    → IsByte b1
    → IsByte b2
    → IsByte b3
    → load b0 b1 b2 b3 ≡ b0 + b1 * 2 ^ 8 + b2 * 2 ^ 16 + b3 * 2 ^ 24
unfolding load
load_lem b0 b1 b2 b3 h0 h1 h2 h3 =
    rw
      (
        or_shift 8 b0 b1 (b1 * 2 ^ 8) (omega arith) (omega arith),
        or_shift 16 (b0 + b1 * 2 ^ 8) b2 (b2 * 2 ^ 16) (omega arith) (omega arith),
      )
      (or_shift 24 (b0 + b1 * 2 ^ 8 + b2 * 2 ^ 16) b3 (b3 * 2 ^ 24) (omega arith) (omega arith))

-- Loading what was stored gives the word.
pub load-byte_at :
    (w : ℕ) → w < 2 ^ 32 → load (byte_at w 0) (byte_at w 8) (byte_at w 16) (byte_at w 24) ≡ w
load-byte_at w h = omega (
  arith,
  load_lem (byte_at w 0) (byte_at w 8) (byte_at w 16) (byte_at w 24) (omega arith) (omega arith)
      (omega arith) (omega arith),
)

pub sub32-add32 : (a b : ℕ) → a < 2 ^ 32 → b < 2 ^ 32 → sub32 (add32 a b) b ≡ a
unfolding add32 sub32
sub32-add32 a b ha hb = omega arith

pub add32-lt : (a b : ℕ) → add32 a b < 2 ^ 32
unfolding add32
add32-lt a b = omega arith

pub xor32-lt : (a b : ℕ) → xor32 a b < 2 ^ 32
unfolding xor32
xor32-lt a b = omega arith
