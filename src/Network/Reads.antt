-- ===== src/Network/Reads.antt =====
-- How far the reading functions of src/networkmessage.cpp go in a message.
use otxserver.Common.{
  ℕ, ◌+◌, ◌≤◌, ◌<◌, ◌≡◌, refl, ◌∙◌, true, inl, inr, List, [], ◌∷◌, arith, ◌==◌, Bool-cases,
}
use otxserver.Network.{
  Message, max_size, initial_buffer_position, readable, can_read, advance, get, get_byte, get_chars,
  get_string, get_position,
}

-- A position within what was received, and within the array.
abbrev pub Inside : Message → Type 0
Inside m = (m.position ≤ m.length + initial_buffer_position) × (m.position < max_size)

-- What a read may do.
pub record Reads (m m' : Message) : Type 0 where
  pub buffer : m'.buffer ≡ m.buffer
  pub length : m'.length ≡ m.length
  pub inside : Inside m'
  pub forward : m.position ≤ m'.position
  pub overrun : m.overrun ≡ true → m'.overrun ≡ true

Reads-refl : (m : Message) → Inside m → Reads m m
Reads-refl m h = record {
  buffer = refl;
  length = refl;
  inside = h;
  forward = omega arith;
  overrun = λ o. o;
}

Reads-trans : (m n p : Message) → Reads m n → Reads n p → Reads m p
Reads-trans m n p h k = record {
  buffer = k.buffer ∙ h.buffer;
  length = k.length ∙ h.length;
  inside = k.inside;
  forward = omega (arith, h.forward, k.forward);
  overrun = λ o. k.overrun (h.overrun o);
}

-- The read of `n` bytes where the test allows it, and where it does not.
advance-Reads : (n : ℕ) (m : Message) → readable n m ≡ true → Reads m (advance n m)
advance-Reads n m e = record {
  buffer = refl;
  length = refl;
  inside = (ground arith, ground arith);
  forward = ground arith;
  overrun = λ o. o;
}

refused-Reads : (m : Message) → Inside m → Reads m (record m { overrun = true })
refused-Reads m h = record {
  buffer = refl;
  length = refl;
  inside = h;
  forward = omega arith;
  overrun = λ o. refl;
}

get-Reads : (n : ℕ) (m : Message) → Inside m → Reads m (get n m).1
unfolding get can_read
get-Reads n m h = elim (Bool-cases (readable n m)) [
  | inl e ↦ rw e (advance-Reads n m e)
  | inr e ↦ rw e (refused-Reads m h)
]

get_chars-Reads : (n : ℕ) (m : Message) → Inside m → Reads m (get_chars n m).1
unfolding get_chars can_read
get_chars-Reads n m h = elim (Bool-cases (readable n m)) [
  | inl e ↦ rw e (advance-Reads n m e)
  | inr e ↦ rw e (refused-Reads m h)
]

get_string-Reads : (n : ℕ) (m : Message) → Inside m → Reads m (get_string n m).1
unfolding get_string
get_string-Reads n m h = elim (Bool-cases (n == 0)) [
  | inl e ↦
      let first = get-Reads 2 m h in
      rw e (Reads-trans m _ _ first (get_chars-Reads (get 2 m).0 (get 2 m).1 first.inside))
  | inr e ↦ rw e (get_chars-Reads n m h)
]

get_position-Reads : (m : Message) → Inside m → Reads m (get_position m).1
unfolding get_position get_byte
get_position-Reads m h =
    let x = get-Reads 2 m h in
    let y = get-Reads 2 (get 2 m).1 x.inside in
    let z = get-Reads 1 (get 2 (get 2 m).1).1 y.inside in
    Reads-trans m _ _ x (Reads-trans _ _ _ y z)

-- The calls that read from a message.
pub data Read : Type 0 where
  number : ℕ → Read
  string : ℕ → Read
  place : Read

unfoldable pub do_read : Read → Message → Message
do_read (number n) m = (get n m).1
do_read (string n) m = (get_string n m).1
do_read place m = (get_position m).1

unfoldable pub do_reads : List Read → Message → Message
do_reads [] m = m
do_reads (r ∷ rs) m = do_reads rs (do_read r m)

do_read-Reads : (r : Read) (m : Message) → Inside m → Reads m (do_read r m)
unfolding do_read
do_read-Reads (number n) m h = get-Reads n m h
do_read-Reads (string n) m h = get_string-Reads n m h
do_read-Reads place m h = get_position-Reads m h

do_reads-Reads : (rs : List Read) (m : Message) → Inside m → Reads m (do_reads rs m)
unfolding do_reads
do_reads-Reads [] m h = Reads-refl m h
do_reads-Reads (r ∷ rs) m h =
    let k = do_read-Reads r m h in
    Reads-trans m (do_read r m) _ k (do_reads-Reads rs (do_read r m) k.inside)

-- From a position within what was received and within the array, no sequence of reads, of numbers,
-- strings of any length and positions, changes a byte or the length of the message, moves the position
-- back, past what was received or out of the array, or clears `overrun`.
pub do_reads_frame :
    (rs : List Read) (m : Message)
    → Inside m
    → ((do_reads rs m).buffer ≡ m.buffer)
      × ((do_reads rs m).length ≡ m.length)
      × (m.position ≤ (do_reads rs m).position)
      × Inside (do_reads rs m)
      × (m.overrun ≡ true → (do_reads rs m).overrun ≡ true)
do_reads_frame rs m h =
    let r = do_reads-Reads rs m h in (r.buffer, r.length, r.forward, r.inside, r.overrun)
