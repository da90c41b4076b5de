-- ===== src/Network/Fields.antt =====
-- What a message is made of: the fields that src/networkmessage.cpp writes and reads, their bytes,
-- and the writing and reading of one field.
use otxserver.Common.{
  ℕ, ◌+◌, ◌^◌, ◌≤◌, ◌<◌, ◌≡◌, refl, ap, List, ◌++◌, arith, lt→ltb, length, length-append,
}
use otxserver.Common.Memory.{
  to_bytes, Fits, Has, poke_bytes-append, length-to_bytes, from_bytes-to_bytes, Has-left, Has-right,
  Has-at, peek_bytes-Has,
}
use otxserver.Position.{Position}
use otxserver.Network.{
  Message, max_body_length, initial_buffer_position, can_add, can_read, put, get, get_byte,
  get_chars, get_string, get_position, add, add_byte, add_string, add_position,
}

pub data Kind : Type 0 where
  num : ℕ → Kind
  text : Kind
  place : Kind

pub data Field : Type 0 where
  number : ℕ → ℕ → Field
  chars : List ℕ → Field
  spot : Position → Field

abbrev pub kind_of : Field → Kind
kind_of (number n v) = num n
kind_of (chars s) = text
kind_of (spot p) = place

-- The values that the types of the source hold: a string of at most 8192 bytes, and a position
-- whose floor is a byte.
abbrev pub IsValid : Field → Type 0
IsValid (number n v) = Fits n v
IsValid (chars s) = length s ≤ 8192
IsValid (spot p) = (p.x < 2 ^ 16) × (p.y < 2 ^ 16) × (p.z < 2 ^ 8)

-- The bytes of a field on the wire.
abbrev pub enc : Field → List ℕ
enc (number n v) = to_bytes n v
enc (chars s) = to_bytes 2 (length s) ++ s
enc (spot p) = to_bytes 2 p.x ++ (to_bytes 2 p.y ++ to_bytes 1 p.z)

unfoldable pub write : Field → Message → Message
write (number n v) m = add n v m
write (chars s) m = add_string s m
write (spot p) m = add_position p m

unfoldable pub read : Kind → Message → Field × Message
read (num n) m = let (v, m') = get n m in (number n v, m')
read text m = let (s, m') = get_string 0 m in (chars s, m')
read place m = let (p, m') = get_position m in (spot p, m')

pub put-put :
    (xs ys : List ℕ) (m : Message)
    → m.position + length xs < 2 ^ 16
    → put ys (put xs m) ≡ put (xs ++ ys) m
unfolding put
put-put xs ys m h = ground (arith, poke_bytes-append m.buffer m.position xs ys, length-append xs ys)

add-put :
    (n v : ℕ) (m : Message) → n + m.position < max_body_length → add n v m ≡ put (to_bytes n v) m
unfolding add can_add
add-put n v m h = rw (lt→ltb _ _ h)

pub position-put :
    (xs : List ℕ) (m : Message)
    → m.position + length xs < 2 ^ 16
    → (put xs m).position ≡ m.position + length xs
unfolding put
position-put xs m h = omega arith

add_string-put :
    (s : List ℕ) (m : Message)
    → length s ≤ 8192
    → m.position + (2 + length s) < max_body_length
    → add_string s m ≡ put s (add 2 (length s) m)
unfolding add_string can_add
add_string-put s m h k = ground arith

add_position-put :
    (p : Position) (m : Message)
    → m.position + 5 < max_body_length
    → add_position p m ≡ put (enc (spot p)) m
unfolding add_position add_byte
add_position-put p m k =
    let m1 = put (to_bytes 2 p.x) m in
    let e1 = position-put (to_bytes 2 p.x) m (omega arith) in
    let m2 = put (to_bytes 2 p.y) m1 in
    let e2 = position-put (to_bytes 2 p.y) m1 (omega (arith, e1)) in
    rw (
      add-put 2 p.x m (omega arith),
      add-put 2 p.y m1 (omega (arith, e1)),
      add-put 1 p.z m2 (omega (arith, e1, e2)),
      put-put (to_bytes 2 p.y) (to_bytes 1 p.z) m1 (omega (arith, e1)),
      put-put (to_bytes 2 p.x) (to_bytes 2 p.y ++ to_bytes 1 p.z) m (omega arith),
    )

-- Where a valid field fits, writing it appends its bytes.
pub write-put :
    (f : Field) (m : Message)
    → IsValid f
    → m.position + length (enc f) < max_body_length
    → write f m ≡ put (enc f) m
unfolding write
write-put (number n v) m h k = add-put n v m (omega (arith, length-to_bytes n v))
write-put (chars s) m h k = rw (
  add_string-put s m h (omega arith),
  add-put 2 (length s) m (omega arith),
  put-put (to_bytes 2 (length s)) s m (omega arith),
)
write-put (spot p) m h k = add_position-put p m k

-- Reading succeeds on bytes that the message has, and moves the position past them.
get_lem :
    (n v : ℕ) (m : Message)
    → Fits n v
    → Has m.buffer m.position (to_bytes n v)
    → m.position + n ≤ m.length + initial_buffer_position
    → m.position + n < max_body_length
    → get n m ≡ (v, record m { position = m.position + n })
unfolding get can_read
get_lem n v m f h k l = ground (
  arith,
  from_bytes-to_bytes n v f,
  peek_bytes-Has m.buffer m.position n (to_bytes n v) (length-to_bytes n v) h,
)

get_chars_lem :
    (s : List ℕ) (m : Message)
    → Has m.buffer m.position s
    → m.position + length s ≤ m.length + initial_buffer_position
    → m.position + length s < max_body_length
    → get_chars (length s) m ≡ (s, record m { position = m.position + length s })
unfolding get_chars can_read
get_chars_lem s m h k l = ground (arith, peek_bytes-Has m.buffer m.position (length s) s refl h)

-- The message holds the bytes of `f` where it is read next.
pub record Holds (f : Field) (m : Message) : Type 0 where
  pub bytes : Has m.buffer m.position (enc f)
  pub ends : m.position + length (enc f) ≤ m.length + initial_buffer_position
  pub short : m.position + length (enc f) < max_body_length

read_text :
    (s : List ℕ) (m : Message)
    → IsValid (chars s)
    → Holds (chars s) m
    → get_string 0 m ≡ (s, record m { position = m.position + length (enc (chars s)) })
unfolding get_string
read_text s m v h =
    let m1 : Message = record m { position = m.position + 2 } in
    let rest : Has m.buffer (m.position + 2) s = Has-at m.buffer s (omega arith) h.bytes.1.1 in
    rw
      (
        get_lem 2 (length s) m (omega arith) (h.bytes.0, (h.bytes.1.0, tt)) (omega arith)
            (omega arith),
        get_chars_lem s m1 rest (omega arith) (omega arith),
      )
      (ap (λ q. (s, record m { position = q })) (omega arith))

read_place :
    (p : Position) (m : Message)
    → IsValid (spot p)
    → Holds (spot p) m
    → get_position m ≡ (p, record m { position = m.position + 5 })
unfolding get_position get_byte
read_place p m v h =
    let buf = m.buffer in
    let m1 : Message = record m { position = m.position + 2 } in
    let m2 : Message = record m { position = m.position + 2 + 2 } in
    let tail1 =
      Has-right buf m.position (to_bytes 2 p.x) (to_bytes 2 p.y ++ to_bytes 1 p.z) h.bytes in
    let here1 = Has-left buf (m.position + 2) (to_bytes 2 p.y) (to_bytes 1 p.z) tail1 in
    let here2 = Has-right buf (m.position + 2) (to_bytes 2 p.y) (to_bytes 1 p.z) tail1 in
    rw
      (
        get_lem 2 p.x m (omega arith)
            (Has-left buf m.position (to_bytes 2 p.x) (to_bytes 2 p.y ++ to_bytes 1 p.z) h.bytes)
            (omega arith) (omega arith),
        get_lem 2 p.y m1 (omega arith) here1 (omega arith) (omega arith),
        get_lem 1 p.z m2 (omega arith) here2 (omega arith) (omega arith),
      )
      (ap (λ q. (p, record m { position = q })) (omega arith))

-- A valid field that the message holds is read back.
pub read_lem :
    (f : Field) (m : Message)
    → IsValid f
    → Holds f m
    → read (kind_of f) m ≡ (f, record m { position = m.position + length (enc f) })
unfolding read
read_lem (number n v) m f h =
    let e = length-to_bytes n v in
    rw (get_lem n v m f h.bytes (omega (arith, e, h.ends)) (omega (arith, e, h.short)), e)
read_lem (chars s) m f h = rw (read_text s m f h)
read_lem (spot p) m f h = rw (read_place p m f h)
