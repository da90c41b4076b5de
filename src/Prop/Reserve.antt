-- ===== src/Prop/Reserve.antt =====
-- The room in the buffer of `PropWriteStream` of src/fileloader.h.
use otxserver.Common.{
  ℕ, zero, suc, ◌+◌, ◌-◌, ◌*◌, ◌%◌, ◌^◌, ◌≤◌, ◌<◌, ◌≡◌, refl, ap, inl, inr, List, [], ◌∷◌, ◌++◌,
  arith, ltb, leb, ltb→lt, leb→le, Bool-cases, length, take, length-append,
}
use native.Mathlib.Nat.{mul_assoc}
use otxserver.Common.Memory.{to_bytes, length-to_bytes}
use otxserver.Prop.{PropWriteStream, grow, reserve, write, add_type, add_string, add_long_string}

abbrev pow2 : ℕ → ℕ
pow2 zero = 1
pow2 (suc n) = 2 * pow2 n

grow-room :
    (fuel size len b k : ℕ)
    → size ≤ b
    → b < size + len
    → size + len ≤ 2 ^ 31
    → size + len ≤ k
    → k ≤ b * pow2 fuel
    → (size + len ≤ grow fuel size len b) × (grow fuel size len b < 2 ^ 32)
unfolding grow
grow-room zero size len b k s h m e l = absurd (omega arith)
grow-room (suc fuel) size len b k s h m e l =
    let wrap : b * 2 % 2 ^ 32 ≡ b * 2 = omega arith in
    let diff : (b * 2 + 2 ^ 32 - size) % 2 ^ 32 ≡ b * 2 - size = omega arith in
    rw (wrap, diff)
      (elim (Bool-cases (ltb (b * 2 - size) len)) [
        | inl f ↦ rw f (
            grow-room fuel size len (b * 2) k (omega arith)
              (omega (arith, ltb→lt (b * 2 - size) len f)) m e
              (omega (arith, l, mul_assoc b 2 (pow2 fuel))))
        | inr f ↦ rw f (ground arith, omega arith)
      ])

-- The buffer holds what is written, and its size is a number of 32 bits that is not 0.
abbrev pub Within : PropWriteStream → Type 0
Within w = (length w.stream ≤ w.buffer_size) × (1 ≤ w.buffer_size) × (w.buffer_size < 2 ^ 32)

reserve-room :
    (len : ℕ) (w : PropWriteStream)
    → Within w
    → length w.stream + len ≤ 2 ^ 31
    → (length w.stream + len ≤ (reserve len w).buffer_size)
      × ((reserve len w).buffer_size < 2 ^ 32)
      × (w.buffer_size ≤ (reserve len w).buffer_size)
      × ((reserve len w).stream ≡ w.stream)
unfolding reserve
reserve-room len w (a, b, c) h =
    let diff : (w.buffer_size + 2 ^ 32 - length w.stream) % 2 ^ 32
        ≡ w.buffer_size - length w.stream =
      omega (arith, a, c) in
    rw diff (elim (Bool-cases (leb len (w.buffer_size - length w.stream))) [
      | inl f ↦
          rw f (omega (arith, leb→le len (w.buffer_size - length w.stream) f), c, omega arith, refl)
      | inr f ↦
          let g =
            grow-room 32 (length w.stream) len w.buffer_size (length w.stream + len) a
              (ground arith) h (omega arith) (omega arith) in
          rw f (g.0, g.1, ground (arith, g.0), refl)
    ])

length-take : (n : ℕ) (s : List ℕ) → n ≤ length s → length (take n s) ≡ n
length-take zero s h = refl
length-take (suc n) [] h = absurd (omega arith)
length-take (suc n) (x ∷ s) h = ap suc (length-take n s (omega arith))

write-Within :
    (bytes : List ℕ) (w : PropWriteStream)
    → Within w
    → length w.stream + length bytes ≤ 2 ^ 31
    → Within (write bytes w) × (length (write bytes w).stream ≡ length w.stream + length bytes)
unfolding write
write-Within bytes w k h =
    let r = reserve-room (length bytes) w k h in
    let w' = reserve (length bytes) w in
    let e = length-append w'.stream bytes in
    let f = ap length r.3 in
    let size = (length w'.stream + length bytes) % 2 ^ 32 in
    let fits : size ≡ length w.stream + length bytes = omega (arith, f, h) in
    let t = length-take size (w'.stream ++ bytes) (omega (arith, e, f, fits)) in
    ((omega (arith, t, fits, r.0), omega (arith, r.2, k.1), r.1), omega (arith, t, fits))

-- A PropWriteStream whose buffer holds what is written keeps that so in each of its writes, as long as
-- what is written comes to no more than 2 ^ 31 bytes: `reserve` ends within 32 rounds with room for
-- the bytes that are then copied, and the size of the buffer does not wrap.
pub add-Within :
    (n v : ℕ) (s : List ℕ) (w : PropWriteStream)
    → Within w
    → length w.stream + n + 4 + length s ≤ 2 ^ 31
    → Within (add_type n v w) × Within (add_string s w) × Within (add_long_string s w)
unfolding add_type add_string add_long_string
add-Within n v s w k h =
    let m = length s % 2 ^ 16 in
    let l = length s % 2 ^ 32 in
    let hm : m ≤ length s = omega arith in
    let hl : l ≤ length s = omega arith in
    let tm = length-take m s hm in
    let tl = length-take l s hl in
    let two = write-Within (to_bytes 2 m) w k (omega (arith, h)) in
    let four = write-Within (to_bytes 4 l) w k (omega (arith, h)) in
    (
      (write-Within (to_bytes n v) w k (omega (arith, h, length-to_bytes n v))).0,
      (write-Within (take m s) _ two.0 (omega (arith, h, two.1, tm, hm))).0,
      (write-Within (take l s) _ four.0 (omega (arith, h, four.1, tl, hl))).0,
    )
