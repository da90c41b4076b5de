-- ===== src/Common/Memory.antt =====
-- A byte array as a function of the index, and little-endian numbers in it.
use Prim.Native.Nat.{ℕ, zero, suc, ◌+◌, ◌*◌, ◌/◌, ◌%◌, ◌≤◌, ◌<◌}
use mathlib.Core.Path.{◌≡◌, refl, ap, ◌∙◌}
use mathlib.Core.Logic.{◌⊎◌}
use mathlib.Core.List.{List, [], ◌∷◌, ◌++◌}
use native.Mathlib.Omega.{arith}
use otxserver.Common.Tests.{◌==◌, if◌then◌else◌}
use otxserver.Common.Lists.{length}

abbrev pub poke : (ℕ → ℕ) → ℕ → ℕ → ℕ → ℕ
poke buf i b j = if j == i then b else buf j

-- `memcpy(buf + i, bs, n)`, byte by byte.
unfoldable pub poke_bytes : (ℕ → ℕ) → ℕ → List ℕ → ℕ → ℕ
poke_bytes buf i [] = buf
poke_bytes buf i (b ∷ bs) = poke_bytes (poke buf i b) (i + 1) bs

-- The `n` bytes from `buf + i`.
unfoldable pub peek_bytes : (ℕ → ℕ) → ℕ → ℕ → List ℕ
peek_bytes buf i zero = []
peek_bytes buf i (suc n) = buf i ∷ peek_bytes buf (i + 1) n

-- The `n` low bytes of a number, lowest first, and back.
abbrev pub to_bytes : ℕ → ℕ → List ℕ
to_bytes zero v = []
to_bytes (suc n) v = v % 256 ∷ to_bytes n (v / 256)

abbrev pub from_bytes : List ℕ → ℕ
from_bytes [] = 0
from_bytes (b ∷ bs) = b + 256 * from_bytes bs

-- `v` has no more than `n` bytes.
abbrev pub Fits : ℕ → ℕ → Type 0
Fits zero v = v ≡ 0
Fits (suc n) v = Fits n (v / 256)

-- `buf` holds the bytes `bs` from `i` on.
abbrev pub Has : (ℕ → ℕ) → ℕ → List ℕ → Type 0
Has buf i [] = Unit {0}
Has buf i (b ∷ bs) = (buf i ≡ b) × Has buf (i + 1) bs

pub from_bytes-to_bytes : (n v : ℕ) → Fits n v → from_bytes (to_bytes n v) ≡ v
from_bytes-to_bytes zero v h = omega arith
from_bytes-to_bytes (suc n) v h = omega (arith, from_bytes-to_bytes n (v / 256) h)

pub length-to_bytes : (n v : ℕ) → length (to_bytes n v) ≡ n
length-to_bytes zero v = refl
length-to_bytes (suc n) v = ap suc (length-to_bytes n (v / 256))

-- A write changes nothing outside its range.
pub poke_bytes_frame :
    (buf : ℕ → ℕ) (i : ℕ) (bs : List ℕ) (j : ℕ)
    → (j < i) ⊎ (i + length bs ≤ j)
    → poke_bytes buf i bs j ≡ buf j
unfolding poke_bytes
poke_bytes_frame buf i [] j h = refl
poke_bytes_frame buf i (b ∷ bs) j h =
    poke_bytes_frame (poke buf i b) (i + 1) bs j (omega arith) ∙ ground arith

pub poke_bytes-append :
    (buf : ℕ → ℕ) (i : ℕ) (xs ys : List ℕ)
    → poke_bytes (poke_bytes buf i xs) (i + length xs) ys ≡ poke_bytes buf i (xs ++ ys)
unfolding poke_bytes
poke_bytes-append buf i [] ys = ap (λ k. poke_bytes buf k ys) (omega arith)
poke_bytes-append buf i (x ∷ xs) ys =
    ap (λ k. poke_bytes (poke_bytes (poke buf i x) (i + 1) xs) k ys) (omega arith)
    ∙ poke_bytes-append (poke buf i x) (i + 1) xs ys

pub poke_bytes-Has : (buf : ℕ → ℕ) (i : ℕ) (bs : List ℕ) → Has (poke_bytes buf i bs) i bs
unfolding poke_bytes
poke_bytes-Has buf i [] = tt
poke_bytes-Has buf i (b ∷ bs) = (
  poke_bytes_frame (poke buf i b) (i + 1) bs i (omega arith) ∙ ground arith,
  poke_bytes-Has (poke buf i b) (i + 1) bs,
)

pub Has-left : (buf : ℕ → ℕ) (i : ℕ) (xs ys : List ℕ) → Has buf i (xs ++ ys) → Has buf i xs
Has-left buf i [] ys h = tt
Has-left buf i (x ∷ xs) ys h = (h.0, Has-left buf (i + 1) xs ys h.1)

pub Has-at : (buf : ℕ → ℕ) {i j : ℕ} (bs : List ℕ) → i ≡ j → Has buf i bs → Has buf j bs
Has-at buf bs e h = rw e at h

pub Has-right :
    (buf : ℕ → ℕ) (i : ℕ) (xs ys : List ℕ) → Has buf i (xs ++ ys) → Has buf (i + length xs) ys
Has-right buf i [] ys h = Has-at buf ys (omega arith) h
Has-right buf i (x ∷ xs) ys h = Has-at buf ys (omega arith) (Has-right buf (i + 1) xs ys h.1)

pub peek_bytes-Has :
    (buf : ℕ → ℕ) (i n : ℕ) (bs : List ℕ) → length bs ≡ n → Has buf i bs → peek_bytes buf i n ≡ bs
unfolding peek_bytes
peek_bytes-Has buf i zero [] e h = refl
peek_bytes-Has buf i (suc n) [] e h = absurd (omega arith)
peek_bytes-Has buf i zero (b ∷ bs) e h = absurd (omega arith)
peek_bytes-Has buf i (suc n) (b ∷ bs) e h =
    rw (h.0, peek_bytes-Has buf (i + 1) n bs (omega arith) h.1)
