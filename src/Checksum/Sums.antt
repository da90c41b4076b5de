-- ===== src/Checksum/Sums.antt =====
-- The sums of `adlerChecksum` of src/tools.cpp beside those of the Adler-32 checksum.
use otxserver.Common.{
  ℕ, zero, suc, ◌+◌, ◌-◌, ◌*◌, ◌%◌, ◌^◌, ◌≤◌, ◌<◌, ◌≡◌, refl, ap, ◌∙◌, false, ◌||◌, List, [], ◌∷◌,
  arith, ltb, ◌==◌, length, All,
}
use Prim.Native.Nat.{bit_or}
use otxserver.Checksum.{adler, add_byte, reduce, sum_chunks, adler_checksum}

-- Adler-32 as it is defined: one more than the sum of the bytes, and the sum of these sums.
abbrev pub sum_a : List ℕ → ℕ → ℕ
sum_a [] a = a
sum_a (d ∷ bytes) a = sum_a bytes (a + d)

abbrev pub sum_b : List ℕ → ℕ → ℕ → ℕ
sum_b [] a b = b
sum_b (d ∷ bytes) a b = sum_b bytes (a + d) (b + (a + d))

abbrev pub Bytes : List ℕ → Type 0
Bytes bytes = All (λ d. d < 256) bytes

-- The sum of the numbers up to `n`, and its value for a whole chunk.
tri : ℕ → ℕ
tri zero = 0
tri (suc n) = tri n + suc n

twice_tri : (n : ℕ) → 2 * tri n ≡ n * n + n
unfolding tri
twice_tri zero = refl
twice_tri (suc n) = grind (arith, twice_tri n)

tri_grows : (n k : ℕ) → tri n ≤ tri (k + n)
unfolding tri
tri_grows n zero = let e : 0 + n ≡ n = omega arith in rw e (omega arith)
tri_grows n (suc k) =
    let e : suc k + n ≡ suc (k + n) = omega arith in rw e (omega (arith, tri_grows n k))

tri_chunk : (n : ℕ) → n < 5552 → tri (suc n) ≤ 15415128
tri_chunk n h =
    let e : 5551 - n + suc n ≡ 5552 = omega arith in
    let g : tri (suc n) ≤ tri 5552 = rw e at (tri_grows (suc n) (5551 - n)) in
    omega (arith, g, twice_tri 5552)

-- The bounds of the two sums after `n` bytes of a chunk.
abbrev Small : ℕ → ℕ × ℕ → Type 0
Small n s = (s.0 ≤ 65520 + 255 * n) × (s.1 ≤ 65520 + 65520 * n + 255 * tri n)

tri-suc : (n : ℕ) → tri (suc n) ≡ tri n + suc n
unfolding tri
tri-suc n = refl

-- The sums as they are, and as the code has them.
abbrev Agrees : ℕ × ℕ → ℕ → ℕ → Type 0
Agrees s a b = (s.0 % adler ≡ a % adler) × (s.1 % adler ≡ b % adler)

add_byte-Small :
    (n d : ℕ) (s : ℕ × ℕ) → d < 256 → n < 5552 → Small n s → Small (suc n) (add_byte d s)
unfolding add_byte
add_byte-Small n d (a, b) h k (p, q) =
    let wa : (a + d) % 2 ^ 32 ≡ a + d = omega (arith, p, h, k) in
    let wb : (b + (a + d)) % 2 ^ 32 ≡ b + (a + d) =
      omega (arith, p, q, h, k, tri-suc n, tri_chunk n k) in
    rw (wa, wb) (omega (arith, p, h), omega (arith, p, q, h, k, tri-suc n, tri_chunk n k))

add_byte-Agrees :
    (n d a b : ℕ) (s : ℕ × ℕ)
    → d < 256
    → n < 5552
    → Small n s
    → Agrees s a b
    → Agrees (add_byte d s) (a + d) (b + (a + d))
unfolding add_byte
add_byte-Agrees n d a b (x, y) h k (p, q) (e, f) =
    let wa : (x + d) % 2 ^ 32 ≡ x + d = omega (arith, p, h, k) in
    let wb : (y + (x + d)) % 2 ^ 32 ≡ y + (x + d) =
      omega (arith, p, q, h, k, tri-suc n, tri_chunk n k) in
    rw (wa, wb) (omega (arith, e), omega (arith, e, f))

reduce-Small : (s : ℕ × ℕ) → Small 0 (reduce s)
unfolding reduce tri
reduce-Small (a, b) = (omega arith, omega arith)

reduce-Agrees : (s : ℕ × ℕ) (a b : ℕ) → Agrees s a b → Agrees (reduce s) a b
unfolding reduce
reduce-Agrees (x, y) a b (e, f) = (omega (arith, e), omega (arith, f))

sum_chunks-sums :
    (tmp n : ℕ) (bytes : List ℕ) (a b : ℕ) (s : ℕ × ℕ)
    → tmp + n ≡ 5552
    → Bytes bytes
    → Small n s
    → Agrees s a b
    → sum_chunks tmp bytes s ≡ (sum_a bytes a % adler, sum_b bytes a b % adler)
unfolding sum_chunks reduce
sum_chunks-sums tmp n [] a b (x, y) t h k g =
    ap (λ u. (u, y % adler)) g.0 ∙ ap (λ u. (a % adler, u)) g.1
sum_chunks-sums zero n (d ∷ bytes) a b s t h k g =
    sum_chunks-sums 5551 1 bytes (a + d) (b + (a + d)) _ (omega arith) h.1
      (add_byte-Small 0 d (reduce s) h.0 (omega arith) (reduce-Small s))
      (add_byte-Agrees 0 d a b (reduce s) h.0 (omega arith) (reduce-Small s)
        (reduce-Agrees s a b g))
sum_chunks-sums (suc tmp) n (d ∷ bytes) a b s t h k g =
    sum_chunks-sums tmp (suc n) bytes (a + d) (b + (a + d)) _ (omega (arith, t)) h.1
      (add_byte-Small n d s h.0 (omega (arith, t)) k)
      (add_byte-Agrees n d a b s h.0 (omega (arith, t)) k g)

-- Of 1 to 65535 bytes, whose sums start at 1 and 0, `adlerChecksum` is the Adler-32 checksum: the sum
-- of the bytes and the sum of these sums modulo 65521, although the code reduces its sums of 32 bits
-- only once in 5552 bytes.
pub adler_checksum_lem :
    (bytes : List ℕ)
    → Bytes bytes
    → 1 ≤ length bytes
    → length bytes ≤ 65535
    → adler_checksum bytes ≡ bit_or (sum_b bytes 1 0 % adler * 2 ^ 16) (sum_a bytes 1 % adler)
unfolding adler_checksum
adler_checksum_lem bytes h k l =
    let some_bytes : (ltb 65535 (length bytes) || length bytes == 0) ≡ false = ground arith in
    let zero_sums : Small 0 (1, 0) = (omega arith, omega arith) in
    let whole : sum_b bytes 1 0 % adler * 2 ^ 16 % 2 ^ 32 ≡ sum_b bytes 1 0 % adler * 2 ^ 16 =
      omega arith in
    rw (
      some_bytes,
      sum_chunks-sums 5552 0 bytes 1 0 (1, 0) (omega arith) h zero_sums (refl, refl),
      whole,
    )
