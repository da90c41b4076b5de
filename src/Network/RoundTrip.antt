-- ===== src/Network/RoundTrip.antt =====
-- Whole messages: what is written field by field is read back in the same order.
use otxserver.Common.{
  ℕ, ◌+◌, ◌^◌, ◌≤◌, ◌<◌, ◌≡◌, refl, sym, ap, ◌∙◌, false, List, [], ◌∷◌, ◌++◌, map, arith, length,
  length-append, All,
}
use otxserver.Common.Memory.{Has, poke_bytes-Has, Has-left, Has-right, Has-at, poke_bytes}
use otxserver.Network.{Message, max_body_length, initial_buffer_position, put, reset}
use otxserver.Network.Fields.{
  Field, Kind, kind_of, IsValid, enc, write, read, put-put, position-put, write-put, Holds,
  read_lem,
}

unfoldable pub write_all : List Field → Message → Message
write_all [] m = m
write_all (f ∷ fs) m = write_all fs (write f m)

unfoldable pub read_all : List Kind → Message → List Field × Message
read_all [] m = ([], m)
read_all (k ∷ ks) m = let (f, m1) = read k m in let (fs, m2) = read_all ks m1 in (f ∷ fs, m2)

abbrev pub enc_all : List Field → List ℕ
enc_all [] = []
enc_all (f ∷ fs) = enc f ++ enc_all fs

put_nil : (m : Message) → m.position < 2 ^ 16 → m.length < 2 ^ 16 → put [] m ≡ m
unfolding put poke_bytes
put_nil m h k = ground arith

length-put : (xs : List ℕ) (m : Message) → (put xs m).length < 2 ^ 16
unfolding put
length-put xs m = omega arith

-- As long as the fields fit, the message is the bytes of the fields in their order.
write_all-put :
    (fs : List Field) (m : Message)
    → All IsValid fs
    → m.position + length (enc_all fs) < max_body_length
    → m.length < 2 ^ 16
    → write_all fs m ≡ put (enc_all fs) m
unfolding write_all
write_all-put [] m v h k = sym (put_nil m (omega arith) k)
write_all-put (f ∷ fs) m v h k =
    let size = length-append (enc f) (enc_all fs) in
    let m1 = put (enc f) m in
    let here = position-put (enc f) m (omega (arith, size)) in
    rw (write-put f m v.0 (omega (arith, size))) (
      write_all-put fs m1 v.1 (omega (arith, size, here)) (length-put (enc f) m)
      ∙ put-put (enc f) (enc_all fs) m (omega (arith, size)))

read_all_lem :
    (fs : List Field) (m : Message)
    → All IsValid fs
    → Has m.buffer m.position (enc_all fs)
    → m.position + length (enc_all fs) ≤ m.length + initial_buffer_position
    → m.position + length (enc_all fs) < max_body_length
    → read_all (map kind_of fs) m ≡ (fs, record m { position = m.position + length (enc_all fs) })
unfolding read_all
read_all_lem [] m v h k l = ap (λ q. ([], record m { position = q })) (omega arith)
read_all_lem (f ∷ fs) m v h k l =
    let size = length-append (enc f) (enc_all fs) in
    let next : ℕ = m.position + length (enc f) in
    let m1 : Message = record m { position = next } in
    let first : Holds f m = record {
      bytes = Has-left m.buffer m.position (enc f) (enc_all fs) h;
      ends = omega (arith, size);
      short = omega (arith, size);
    } in
    let rest = Has-right m.buffer m.position (enc f) (enc_all fs) h in
    rw
      (
        read_lem f m v.0 first,
        read_all_lem fs m1 v.1 rest (omega (arith, size)) (omega (arith, size)),
      )
      (ap (λ q. (f ∷ fs, record m { position = q })) (omega (arith, size)))

-- A receiver of the message: the same bytes and length, read from the start.
unfoldable pub rewind : Message → Message
rewind m = record m { position = initial_buffer_position }

put-read_all :
    (fs : List Field) (m : Message)
    → All IsValid fs
    → m.position ≡ initial_buffer_position
    → m.length ≡ 0
    → initial_buffer_position + length (enc_all fs) < max_body_length
    → let sent = put (enc_all fs) m in
      (read_all (map kind_of fs) (rewind sent) ≡ (fs, sent)) × (sent.overrun ≡ m.overrun)
unfolding put rewind
put-read_all fs m v p l h =
    let bs = enc_all fs in
    let sent = put bs m in
    let held = Has-at sent.buffer bs p (poke_bytes-Has m.buffer m.position bs) in
    (
      read_all_lem fs (rewind sent) v held (omega arith) (omega arith)
          ∙ ap (λ q. (fs, record sent { position = q })) (omega arith),
      refl,
    )

-- Any sequence of valid fields (unsigned numbers, strings of at most 8192 bytes, positions) that
-- fits in the body of a fresh message is read back whole, in order, without an overrun, and the
-- reader ends where the writer did.
pub read_all-write_all :
    (fs : List Field) (m : Message)
    → All IsValid fs
    → initial_buffer_position + length (enc_all fs) < max_body_length
    → let sent = write_all fs (reset m) in
      (read_all (map kind_of fs) (rewind sent) ≡ (fs, sent)) × (sent.overrun ≡ false)
unfolding reset
read_all-write_all fs m v h =
    rw (write_all-put fs (reset m) v h (omega arith)) (put-read_all fs (reset m) v refl refl h)
