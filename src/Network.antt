-- ===== src/Network.antt =====
-- src/networkmessage.h and src/networkmessage.cpp: the buffer of a message with its read and write
-- positions. The array is a function of the index; `Network/Bounds` proves that no write of a
-- component function goes past its end. `length` and `position` are MsgSize_t, a uint16_t, and wrap.
-- A function that answers returns its answer and the new message.
pub mod Fields
pub mod Bounds
pub mod Reads
pub mod RoundTrip
mod Tests
use Prim.Native.Nat.{bit_and}
use otxserver.Common.{
  ℕ, zero, suc, ◌+◌, ◌-◌, ◌*◌, ◌/◌, ◌%◌, ◌^◌, ◌≤◌, ◌<◌, min, max, ◌≡◌, refl, sym, ap, ◌∙◌, ◌≢◌, ◌↔◌,
  ◌⊎◌, inl, inr, Bool, true, false, not, ◌&&◌, ◌||◌, Option, none, some, List, [], ◌∷◌, ◌++◌, map,
  arith, ltb, leb, ◌==◌, if◌then◌else◌, ltb→lt, lt→ltb, leb→le, ==_iff, ==_refl, Bool-cases,
  Option-cases, dist, length, get_elem?, get_or, set, take, drop, length-append, take-append,
  drop-append, All, All-append,
}
use otxserver.Common.Memory.{poke_bytes, peek_bytes, to_bytes, from_bytes}
use otxserver.Position.{Position}

abbrev pub max_size : ℕ
max_size = 65535

abbrev pub initial_buffer_position : ℕ
initial_buffer_position = 8

-- MAX_BODY_LENGTH = NETWORKMESSAGE_MAXSIZE - HEADER_LENGTH - CHECKSUM_LENGTH - XTEA_MULTIPLE
abbrev pub max_body_length : ℕ
max_body_length = max_size - 2 - 4 - 8

pub record Message : Type 0 where
  pub buffer : ℕ → ℕ
  pub length : ℕ
  pub position : ℕ
  pub overrun : Bool

-- `info = {}`: the bytes stay.
unfoldable pub reset : Message → Message
reset m = record m { length = 0; position = initial_buffer_position; overrun = false }

unfoldable pub can_add : ℕ → Message → Bool
can_add size m = ltb (size + m.position) max_body_length

-- The test of `canRead`, in `int`; the position never exceeds NETWORKMESSAGE_MAXSIZE.
abbrev pub readable : ℕ → Message → Bool
readable size m = not (
    ltb (m.length + initial_buffer_position) (m.position + size)
    || leb (max_size - m.position) size)

-- `canRead`: a failure is noted in `overrun`.
unfoldable pub can_read : ℕ → Message → Bool × Message
can_read size m = if readable size m then (true, m) else (false, record m { overrun = true })

-- `info.position += n`
abbrev pub advance : ℕ → Message → Message
advance n m = record m { position = (m.position + n) % 2 ^ 16 }

-- `std::memcpy(buffer + info.position, bytes, n); info.position += n; info.length += n`
unfoldable pub put : List ℕ → Message → Message
put bytes m = record m {
  buffer = poke_bytes m.buffer m.position bytes;
  position = (m.position + length bytes) % 2 ^ 16;
  length = (m.length + length bytes) % 2 ^ 16;
}

-- `get<T>()` for an unsigned T of `n` bytes; `getByte` is the case of one byte.
unfoldable pub get : ℕ → Message → ℕ × Message
get n m =
    let (readable', m') = can_read n m in
    if readable' then (from_bytes (peek_bytes m'.buffer m'.position n), advance n m') else (0, m')

unfoldable pub get_byte : Message → ℕ × Message
get_byte m = get 1 m

-- `getPreviousByte`: `--info.position`, then the byte there.
unfoldable pub get_previous_byte : Message → ℕ × Message
get_previous_byte m =
    let p = (m.position + 2 ^ 16 - 1) % 2 ^ 16 in (m.buffer p, record m { position = p })

-- The rest of `getString`, once the length is known.
unfoldable pub get_chars : ℕ → Message → List ℕ × Message
get_chars n m =
    let (readable', m') = can_read n m in
    if readable' then (peek_bytes m'.buffer m'.position n, advance n m') else ([], m')

-- `getString(stringLen)`: a length of 0 is read from the message first.
unfoldable pub get_string : ℕ → Message → List ℕ × Message
get_string string_len m =
    if string_len == 0 then (let (n, m') = get 2 m in get_chars n m') else get_chars string_len m

unfoldable pub get_position : Message → Position × Message
get_position m =
    let (x, m1) = get 2 m in
    let (y, m2) = get 2 m1 in let (z, m3) = get_byte m2 in (record { x = x; y = y; z = z }, m3)

-- `skipBytes(count)`: an int16_t `count` below 0 stands as `2 ^ 16 + count`.
unfoldable pub skip_bytes : ℕ → Message → Message
skip_bytes count m = advance count m

-- `add<T>(value)` for an unsigned T of `n` bytes; `addByte` is the case of one byte.
unfoldable pub add : ℕ → ℕ → Message → Message
add n value m = if can_add n m then put (to_bytes n value) m else m

unfoldable pub add_byte : ℕ → Message → Message
add_byte value m = add 1 value m

unfoldable pub add_string : List ℕ → Message → Message
add_string value m =
    if not (can_add (length value + 2) m) || ltb 8192 (length value)
    then m
    else put value (add 2 (length value) m)

unfoldable pub add_bytes : List ℕ → Message → Message
add_bytes bytes m =
    if not (can_add (length bytes) m) || ltb 8192 (length bytes) then m else put bytes m

abbrev pub padding : ℕ → List ℕ
padding zero = []
padding (suc n) = 0x33 ∷ padding n

-- `addPaddingBytes(n)` writes after the position and does not move it.
unfoldable pub add_padding_bytes : ℕ → Message → Message
add_padding_bytes n m =
    if can_add n m
    then record m {
      buffer = poke_bytes m.buffer m.position (padding n);
      length = (m.length + n) % 2 ^ 16;
    }
    else m

unfoldable pub add_position : Position → Message → Message
add_position pos m = add_byte pos.z (add 2 pos.y (add 2 pos.x m))

-- `setBufferPosition`
unfoldable pub set_buffer_position : ℕ → Message → Bool × Message
set_buffer_position pos m =
    if ltb pos (max_size - initial_buffer_position)
    then (true, record m { position = pos + initial_buffer_position })
    else (false, m)

unfoldable pub get_remaining_buffer_length : Message → ℕ
get_remaining_buffer_length m = (m.length + 2 ^ 16 - m.position) % 2 ^ 16

unfoldable pub get_length_header : Message → ℕ
get_length_header m = from_bytes (peek_bytes m.buffer 0 2)

-- What `addItem` and `addItemId` use of an item's type and of the item.
pub record ItemView : Type 0 where
  pub client_id : ℕ
  pub stackable : Bool
  pub splash_or_fluid : Bool
  pub count : ℕ
  pub fluid_type : ℕ

-- `fluidMap` of src/const.h
abbrev pub fluid_map : List ℕ
fluid_map = 0 ∷ 1 ∷ 5 ∷ 3 ∷ 6 ∷ 8 ∷ 9 ∷ 2 ∷ []

unfoldable pub add_item : ItemView → Message → Message
add_item item m =
    let m' = add 2 item.client_id m in
    if item.stackable
    then add_byte (min 0xFF item.count) m'
    else if item.splash_or_fluid
    then add_byte (get_or fluid_map (bit_and item.fluid_type 7) 0) m'
    else m'

-- The client's id of an item type comes from the table of item types.
unfoldable pub add_item_id : (ℕ → ℕ) → ℕ → Message → Message
add_item_id client_id item_id m = add 2 (client_id item_id) m
