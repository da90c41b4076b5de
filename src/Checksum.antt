-- ===== src/Checksum.antt =====
-- `adlerChecksum` of src/tools.cpp: the checksum of the messages. The two sums are uint32_t and wrap; they
-- are reduced after each chunk of 5552 bytes.
pub mod Sums
mod Tests
use Prim.Native.Nat.{bit_or}
use otxserver.Common.{
  ℕ, zero, suc, ◌+◌, ◌-◌, ◌*◌, ◌/◌, ◌%◌, ◌^◌, ◌≤◌, ◌<◌, min, max, ◌≡◌, refl, sym, ap, ◌∙◌, ◌≢◌, ◌↔◌,
  ◌⊎◌, inl, inr, Bool, true, false, not, ◌&&◌, ◌||◌, Option, none, some, List, [], ◌∷◌, ◌++◌, map,
  arith, ltb, leb, ◌==◌, if◌then◌else◌, ltb→lt, lt→ltb, leb→le, ==_iff, ==_refl, Bool-cases,
  Option-cases, dist, if_intro, length, get_elem?, get_or, set, take, drop, length-append,
  take-append, drop-append, All, All-append,
}

abbrev pub adler : ℕ
adler = 65521

abbrev pub chunk : ℕ
chunk = 5552

-- One byte: `a += *data++; b += a`.
unfoldable pub add_byte : ℕ → ℕ × ℕ → ℕ × ℕ
add_byte d (a, b) = ((a + d) % 2 ^ 32, (b + (a + d) % 2 ^ 32) % 2 ^ 32)

-- `a %= adler; b %= adler`
unfoldable pub reduce : ℕ × ℕ → ℕ × ℕ
reduce (a, b) = (a % adler, b % adler)

-- The two loops, with `tmp` bytes left of the chunk before it is reduced.
unfoldable pub sum_chunks : ℕ → List ℕ → ℕ × ℕ → ℕ × ℕ
sum_chunks tmp [] s = reduce s
sum_chunks zero (d ∷ bytes) s = sum_chunks (chunk - 1) bytes (add_byte d (reduce s))
sum_chunks (suc tmp) (d ∷ bytes) s = sum_chunks tmp bytes (add_byte d s)

unfoldable pub adler_checksum : List ℕ → ℕ
adler_checksum bytes =
    if ltb 65535 (length bytes) || length bytes == 0
    then 0
    else (let (a, b) = sum_chunks chunk bytes (1, 0) in bit_or (b * 2 ^ 16 % 2 ^ 32) a)
