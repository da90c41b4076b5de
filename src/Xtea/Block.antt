-- ===== src/Xtea/Block.antt =====
-- `decrypt` of src/xtea.cpp undoes `encrypt`: first for a block and a pair of round keys, then
-- for the blocks of the data, then for all the round keys.
use mathlib.Core.Option
use otxserver.Common.{ℕ, ◌%◌, ◌^◌, ◌<◌, ◌≡◌, refl, ◌∙◌, some, List, [], ◌∷◌, arith, length, All}
use otxserver.Xtea.{
  load, store, add32, xor32, mix, apply_rounds, encrypt_round, decrypt_round, encrypt, decrypt,
}
use otxserver.Xtea.Words.{IsByte, load_lem, load-byte_at, sub32-add32, add32-lt, xor32-lt}

abbrev Word : ℕ → Type 0
Word w = w < 2 ^ 32

-- Whole blocks of bytes.
abbrev pub Blocks : List ℕ → Type 0
Blocks [] = Unit {0}
Blocks (b0 ∷ b1 ∷ b2 ∷ b3 ∷ b4 ∷ b5 ∷ b6 ∷ b7 ∷ rest) =
    (IsByte b0 × IsByte b1 × IsByte b2 × IsByte b3)
    × (IsByte b4 × IsByte b5 × IsByte b6 × IsByte b7)
    × Blocks rest
Blocks _ = ⊥

decrypt_round-encrypt_round :
    (k0 k1 left right : ℕ)
    → Word left
    → Word right
    → decrypt_round k0 k1 (encrypt_round k0 k1 (left, right)) ≡ (left, right)
unfolding encrypt_round decrypt_round
decrypt_round-encrypt_round k0 k1 left right hl hr =
    let half = add32 left (xor32 (mix right) k0) in
    let key = xor32 (mix half) k1 in
    rw (
      sub32-add32 right key hr (xor32-lt (mix half) k1),
      sub32-add32 left (xor32 (mix right) k0) hl (xor32-lt (mix right) k0),
    )

-- What a round keeps, and what undoes it.
record Undoes (f g : ℕ × ℕ → ℕ × ℕ) : Type 0 where
  words : (l r : ℕ) → Word l → Word r → Word (f (l, r)).0 × Word (f (l, r)).1
  back : (l r : ℕ) → Word l → Word r → g (f (l, r)) ≡ (l, r)

-- A loaded word, and its bytes.
load-Word :
    (b0 b1 b2 b3 : ℕ)
    → IsByte b0 × IsByte b1 × IsByte b2 × IsByte b3
    → Word (load b0 b1 b2 b3)
      × ((rest : List ℕ) → store (load b0 b1 b2 b3) rest ≡ b0 ∷ b1 ∷ b2 ∷ b3 ∷ rest)
unfolding store
load-Word b0 b1 b2 b3 h =
    let e = load_lem b0 b1 b2 b3 h.0 h.1 h.2 h.3 in (omega (arith, e), λ rest. rw e (ground arith))

record Undone (f g : ℕ × ℕ → ℕ × ℕ) (data_in : List ℕ) : Type 0 where
  out : List ℕ
  runs : apply_rounds f data_in ≡ some out
  blocks : Blocks out
  size : length out ≡ length data_in
  back : apply_rounds g out ≡ some data_in

apply_rounds-Undone :
    (f g : ℕ × ℕ → ℕ × ℕ) → Undoes f g → (bytes : List ℕ) → Blocks bytes → Undone f g bytes
unfolding apply_rounds store
apply_rounds-Undone f g u [] h = record {
  out = [];
  runs = refl;
  blocks = tt;
  size = refl;
  back = refl;
}
apply_rounds-Undone f g u (b0 ∷ b1 ∷ b2 ∷ b3 ∷ b4 ∷ b5 ∷ b6 ∷ b7 ∷ rest) h =
    let u0 = load b0 b1 b2 b3 in
    let u1 = load b4 b5 b6 b7 in
    let w0 = load-Word b0 b1 b2 b3 h.0 in
    let w1 = load-Word b4 b5 b6 b7 h.1 in
    let v0 : ℕ = (f (u0, u1)).0 in
    let v1 : ℕ = (f (u0, u1)).1 in
    let v = u.words u0 u1 w0.0 w1.0 in
    let ih = apply_rounds-Undone f g u rest h.2 in
    record {
      out = store v0 (store v1 ih.out);
      runs = rw ih.runs;
      blocks = (omega arith, omega arith, ih.blocks);
      size = omega (arith, ih.size);
      back =
          rw
            (load-byte_at v0 v.0, load-byte_at v1 v.1, u.back u0 u1 w0.0 w1.0, ih.back, w0.1, w1.1);
    }
apply_rounds-Undone f g u _ h = absurd h

encrypt_round-Undoes : (k0 k1 : ℕ) → Undoes (encrypt_round k0 k1) (decrypt_round k0 k1)
unfolding encrypt_round
encrypt_round-Undoes k0 k1 = record {
  words = λ l r hl hr. (add32-lt l _, add32-lt r _);
  back = decrypt_round-encrypt_round k0 k1;
}

-- An even number of round keys.
abbrev pub Pairs : List ℕ → Type 0
Pairs [] = Unit {0}
Pairs (k0 ∷ k1 ∷ k) = Pairs k
Pairs _ = ⊥

pub record RoundTrip (k : List ℕ) (bytes : List ℕ) : Type 0 where
  pub out : List ℕ
  pub runs : encrypt k bytes ≡ some out
  pub blocks : Blocks out
  pub size : length out ≡ length bytes
  pub back : decrypt k out ≡ some bytes

pub encrypt-RoundTrip : (k bytes : List ℕ) → Pairs k → Blocks bytes → RoundTrip k bytes
unfolding encrypt decrypt Option.bind
encrypt-RoundTrip [] bytes p h = record {
  out = bytes;
  runs = refl;
  blocks = h;
  size = refl;
  back = refl;
}
encrypt-RoundTrip (k0 ∷ k1 ∷ k) bytes p h =
    let one = apply_rounds-Undone _ _ (encrypt_round-Undoes k0 k1) bytes h in
    let more = encrypt-RoundTrip k one.out p one.blocks in
    record {
      out = more.out;
      runs = rw one.runs more.runs;
      blocks = more.blocks;
      size = more.size ∙ one.size;
      back = rw more.back one.back;
    }
encrypt-RoundTrip _ bytes p h = absurd p

-- Bytes whose number is a multiple of eight are whole blocks.
pub Blocks-of : (bytes : List ℕ) → All IsByte bytes → length bytes % 8 ≡ 0 → Blocks bytes
Blocks-of [] h e = tt
Blocks-of (b0 ∷ b1 ∷ b2 ∷ b3 ∷ b4 ∷ b5 ∷ b6 ∷ b7 ∷ rest) h e =
    (omega arith, omega arith, Blocks-of rest h.1.1.1.1.1.1.1.1 (omega arith))
Blocks-of _ h e = absurd (omega arith)

pub Blocks-All : (bytes : List ℕ) → Blocks bytes → All IsByte bytes
Blocks-All [] h = tt
Blocks-All (b0 ∷ b1 ∷ b2 ∷ b3 ∷ b4 ∷ b5 ∷ b6 ∷ b7 ∷ rest) h =
    let (p0, p1, p2, p3) = h.0 in
    let (p4, p5, p6, p7) = h.1 in
    (p0, (p1, (p2, (p3, (p4, (p5, (p6, (p7, Blocks-All rest h.2))))))))
Blocks-All _ h = absurd h
