-- ===== src/Prop.antt =====
-- src/fileloader.h: `PropStream`, which reads the properties of a node, and `PropWriteStream`, which
-- writes them. A byte is a number; a PropStream is the list of the bytes from `p` to `end`.

pub mod Reserve
pub mod RoundTrip
mod Tests
use otxserver.Common.{
  ℕ, zero, suc, ◌+◌, ◌-◌, ◌*◌, ◌/◌, ◌%◌, ◌^◌, ◌≤◌, ◌<◌, min, max, ◌≡◌, refl, sym, ap, ◌∙◌, ◌≢◌, ◌↔◌,
  ◌⊎◌, inl, inr, Bool, true, false, not, ◌&&◌, ◌||◌, Option, none, some, List, [], ◌∷◌, ◌++◌, map,
  arith, ltb, leb, ◌==◌, if◌then◌else◌, ltb→lt, lt→ltb, leb→le, ==_iff, ==_refl, Bool-cases,
  Option-cases, dist, if_intro, length, get_elem?, get_or, set, take, drop, length-append,
  take-append, drop-append, All, All-append,
}
use otxserver.Common.Memory.{to_bytes, from_bytes}

-- A value and the bytes after it; false, with where the stream then stands; or a `memcpy` past `end`.
pub data Read (A : Type 0) : Type 0 where
  ok : A → List ℕ → Read A
  fails : List ℕ → Read A
  overrun : Read A

-- A number of 32 bits as an int32_t, by its place among them: 0 stands for -2 ^ 31.
abbrev pub as_signed : ℕ → ℕ
as_signed n = (n + 2 ^ 31) % 2 ^ 32

-- The comparison `size() < n` of int32_t numbers: both wrap.
unfoldable pub is_short : ℕ → ℕ → Bool
is_short size n = ltb (as_signed size) (as_signed n)

-- `getType<T>`, for a T of n bytes.
unfoldable pub get_type : ℕ → List ℕ → Read ℕ
get_type n s = if is_short (length s) n then fails s else ok (from_bytes (take n s)) (drop n s)

-- `memcpy` of `n` bytes from `p`
unfoldable pub copy : ℕ → List ℕ → Read (List ℕ)
copy n s = if ltb (length s) n then overrun else ok (take n s) (drop n s)

-- The test of the length and the copy, in `getString` and `getLongString`.
unfoldable pub get_chars : ℕ → List ℕ → Read (List ℕ)
get_chars n s = if is_short (length s) n then fails s else copy n s

abbrev pub chars_after : Read ℕ → Read (List ℕ)
chars_after (ok n s) = get_chars n s
chars_after (fails s) = fails s
chars_after overrun = overrun

unfoldable pub get_string : List ℕ → Read (List ℕ)
get_string s = chars_after (get_type 2 s)

unfoldable pub get_long_string : List ℕ → Read (List ℕ)
get_long_string s = chars_after (get_type 4 s)

-- `skip`, forward: n is an int16_t that is not negative.
unfoldable pub skip : ℕ → List ℕ → Read ℕ
skip n s = if is_short (length s) n then fails s else ok n (drop n s)

-- `PropWriteStream`: `size` is the length of what is written.
pub record PropWriteStream : Type 0 where
  pub buffer_size : ℕ
  pub stream : List ℕ

abbrev pub new_stream : PropWriteStream
new_stream = record { buffer_size = 32; stream = [] }

unfoldable pub clear : PropWriteStream → PropWriteStream
clear w = record w { stream = [] }

-- The loop of `reserve`, on fuel: `bufferSize <<= 1` until there is room.
unfoldable pub grow : ℕ → ℕ → ℕ → ℕ → ℕ
grow zero size len b = b
grow (suc fuel) size len b =
    let b' = b * 2 % 2 ^ 32 in
    let rest = grow fuel size len b' in if ltb ((b' + 2 ^ 32 - size) % 2 ^ 32) len then rest else b'

-- `reserve`, with fuel for 32 rounds.
unfoldable pub reserve : ℕ → PropWriteStream → PropWriteStream
reserve len w =
    if leb len ((w.buffer_size + 2 ^ 32 - length w.stream) % 2 ^ 32)
    then w
    else record w { buffer_size = grow 32 (length w.stream) len w.buffer_size }

-- `memcpy(buffer + size, ...)` after `reserve`; `size`, an uint32_t, wraps, and the stream is the bytes
-- below it.
unfoldable pub write : List ℕ → PropWriteStream → PropWriteStream
write bytes w =
    let w' = reserve (length bytes) w in
    let size = (length w'.stream + length bytes) % 2 ^ 32 in
    record w' { stream = take size (w'.stream ++ bytes) }

-- `addType<T>`, for a T of n bytes.
unfoldable pub add_type : ℕ → ℕ → PropWriteStream → PropWriteStream
add_type n v w = write (to_bytes n v) w

-- `addString` and `addLongString`: a length that does not fit wraps.
unfoldable pub add_string : List ℕ → PropWriteStream → PropWriteStream
add_string add w = let n = length add % 2 ^ 16 in write (take n add) (add_type 2 n w)

unfoldable pub add_long_string : List ℕ → PropWriteStream → PropWriteStream
add_long_string add w = let n = length add % 2 ^ 32 in write (take n add) (add_type 4 n w)
