-- ===== src/Prop/RoundTrip.antt =====
-- What `PropWriteStream` of src/fileloader.h writes and what `PropStream` reads.
use otxserver.Common.{
  ℕ, ◌+◌, ◌%◌, ◌^◌, ◌<◌, ◌≡◌, refl, sym, ap, ◌∙◌, false, List, [], ◌∷◌, ◌++◌, map, arith, ltb,
  if_intro, length, take, drop, length-append, take-append, drop-append, All,
}
use otxserver.Common.Memory.{to_bytes, from_bytes-to_bytes, length-to_bytes, Fits}
use otxserver.Prop.{
  Read, ok, fails, overrun, is_short, get_type, copy, get_chars, get_string, get_long_string,
  PropWriteStream, reserve, write, add_type, add_string, add_long_string, clear,
}

-- A field of a node's properties: a number of n bytes, or a string with a length of 2 or 4 bytes.
pub data Field : Type 0 where
  number : ℕ → ℕ → Field
  string : List ℕ → Field
  long_string : List ℕ → Field

-- The kinds of the fields, which the reader knows.
pub data Kind : Type 0 where
  a_number : ℕ → Kind
  a_string a_long_string : Kind

abbrev pub kind : Field → Kind
kind (number n v) = a_number n
kind (string s) = a_string
kind (long_string s) = a_long_string

abbrev pub add : Field → PropWriteStream → PropWriteStream
add (number n v) w = add_type n v w
add (string s) w = add_string s w
add (long_string s) w = add_long_string s w

abbrev pub as_field : {A : Type 0} → (A → Field) → Read A → Read Field
as_field f (ok a s) = ok (f a) s
as_field f (fails s) = fails s
as_field f overrun = overrun

abbrev pub get : Kind → List ℕ → Read Field
get (a_number n) s = as_field (number n) (get_type n s)
get a_string s = as_field string (get_string s)
get a_long_string s = as_field long_string (get_long_string s)

unfoldable pub add_all : List Field → PropWriteStream → PropWriteStream
add_all [] w = w
add_all (f ∷ fs) w = add_all fs (add f w)

-- The rest of a reading, of which the first field has been read.
abbrev pub then_rest : Field → Read (List Field) → Read (List Field)
then_rest f (ok fs s) = ok (f ∷ fs) s
then_rest f (fails s) = fails s
then_rest f overrun = overrun

abbrev pub and_then : Read Field → (List ℕ → Read (List Field)) → Read (List Field)
and_then (ok f s) rest = then_rest f (rest s)
and_then (fails s) rest = fails s
and_then overrun rest = overrun

unfoldable pub get_all : List Kind → List ℕ → Read (List Field)
get_all [] s = ok [] s
get_all (k ∷ ks) s = and_then (get k s) (get_all ks)

-- The value fits its type, and the length that of its string.
abbrev pub Valid : Field → Type 0
Valid (number n v) = (n < 2 ^ 31) × Fits n v
Valid (string s) = length s < 2 ^ 16
Valid (long_string s) = length s < 2 ^ 31

-- The bytes that fields take, with the lengths of strings.
abbrev pub size_of : Field → ℕ
size_of (number n v) = n
size_of (string s) = 2 + length s
size_of (long_string s) = 4 + length s

abbrev pub sizes : List Field → ℕ
sizes [] = 0
sizes (f ∷ fs) = size_of f + sizes fs

-- The bytes of a field.
abbrev bytes_of : Field → List ℕ
bytes_of (number n v) = to_bytes n v
bytes_of (string s) = to_bytes 2 (length s) ++ s
bytes_of (long_string s) = to_bytes 4 (length s) ++ s

take_at : (n : ℕ) (xs ys : List ℕ) → length xs ≡ n → take n (xs ++ ys) ≡ xs
take_at n xs ys h = rw (← h) (take-append xs ys)

drop_at : (n : ℕ) (xs ys : List ℕ) → length xs ≡ n → drop n (xs ++ ys) ≡ ys
drop_at n xs ys h = rw (← h) (drop-append xs ys)

not_short :
    (n : ℕ) (xs ys : List ℕ)
    → length xs ≡ n
    → n + length ys < 2 ^ 31
    → is_short (length (xs ++ ys)) n ≡ false
unfolding is_short
not_short n xs ys h b =
    let l = length-append xs ys in
    let size : (length (xs ++ ys) + 2 ^ 31) % 2 ^ 32 ≡ n + length ys + 2 ^ 31 =
      omega (arith, l, h, b) in
    let least : (n + 2 ^ 31) % 2 ^ 32 ≡ n + 2 ^ 31 = omega (arith, b) in
    rw (size, least) (ground arith)

get_type-bytes :
    (n v : ℕ) (s : List ℕ)
    → Fits n v
    → n + length s < 2 ^ 31
    → get_type n (to_bytes n v ++ s) ≡ ok v s
unfolding get_type
get_type-bytes n v s h b =
    let l = length-to_bytes n v in
    rw (
      not_short n (to_bytes n v) s l b,
      take_at n (to_bytes n v) s l,
      drop_at n (to_bytes n v) s l,
      from_bytes-to_bytes n v h,
    )

get_chars-bytes :
    (xs ys : List ℕ) → length xs + length ys < 2 ^ 31 → get_chars (length xs) (xs ++ ys) ≡ ok xs ys
unfolding get_chars copy
get_chars-bytes xs ys b =
    let l : ltb (length (xs ++ ys)) (length xs) ≡ false = ground (arith, length-append xs ys) in
    rw (not_short (length xs) xs ys refl b, l, take-append xs ys, drop-append xs ys)

append_assoc : (xs ys zs : List ℕ) → (xs ++ ys) ++ zs ≡ xs ++ (ys ++ zs)
append_assoc [] ys zs = refl
append_assoc (x ∷ xs) ys zs = ap (◌∷◌ x) (append_assoc xs ys zs)

length-bytes_of : (f : Field) → length (bytes_of f) ≡ size_of f
length-bytes_of (number n v) = length-to_bytes n v
length-bytes_of (string s) =
    omega (arith, length-append (to_bytes 2 (length s)) s, length-to_bytes 2 (length s))
length-bytes_of (long_string s) =
    omega (arith, length-append (to_bytes 4 (length s)) s, length-to_bytes 4 (length s))

get-bytes_of :
    (f : Field) (s : List ℕ)
    → Valid f
    → size_of f + length s < 2 ^ 31
    → get (kind f) (bytes_of f ++ s) ≡ ok f s
unfolding get_string get_long_string
get-bytes_of (number n v) s h b = rw (get_type-bytes n v s h.1 b)
get-bytes_of (string xs) s h b = rw (
  append_assoc (to_bytes 2 (length xs)) xs s,
  get_type-bytes 2 (length xs) (xs ++ s) (omega (arith, h)) (omega (arith, b, length-append xs s)),
  get_chars-bytes xs s (omega (arith, b)),
)
get-bytes_of (long_string xs) s h b = rw (
  append_assoc (to_bytes 4 (length xs)) xs s,
  get_type-bytes 4 (length xs) (xs ++ s) (omega (arith, h)) (omega (arith, b, length-append xs s)),
  get_chars-bytes xs s (omega (arith, b)),
)

take_whole : (xs : List ℕ) → take (length xs) xs ≡ xs
take_whole [] = refl
take_whole (x ∷ xs) = ap (◌∷◌ x) (take_whole xs)

reserve-stream : (len : ℕ) (w : PropWriteStream) → (reserve len w).stream ≡ w.stream
unfolding reserve
reserve-stream len w = if_intro (λ (u : PropWriteStream). u.stream ≡ w.stream) _ refl refl

write-stream :
    (bytes : List ℕ) (w : PropWriteStream)
    → length w.stream + length bytes < 2 ^ 31
    → (write bytes w).stream ≡ w.stream ++ bytes
unfolding write
write-stream bytes w b =
    let r = reserve-stream (length bytes) w in
    let fits : (length w.stream + length bytes) % 2 ^ 32 ≡ length w.stream + length bytes =
      omega (arith, b) in
    rw (r, fits, ← length-append w.stream bytes, take_whole (w.stream ++ bytes))

-- A length, and the characters after it.
write_two :
    (n : ℕ) (s : List ℕ) (w : PropWriteStream)
    → length w.stream + n + length s < 2 ^ 31
    → (write s (write (to_bytes n (length s)) w)).stream ≡ w.stream ++ (to_bytes n (length s) ++ s)
write_two n s w b =
    let l = length-to_bytes n (length s) in
    let first = write-stream (to_bytes n (length s)) w (omega (arith, l, b)) in
    let e = length-append w.stream (to_bytes n (length s)) in
    write-stream s (write (to_bytes n (length s)) w) (omega (arith, ap length first, e, l, b))
    ∙ ap (λ u. u ++ s) first
    ∙ append_assoc w.stream (to_bytes n (length s)) s

add-stream :
    (f : Field) (w : PropWriteStream)
    → Valid f
    → length w.stream + size_of f < 2 ^ 31
    → (add f w).stream ≡ w.stream ++ bytes_of f
unfolding add_type add_string add_long_string
add-stream (number n v) w h b =
    write-stream (to_bytes n v) w (omega (arith, b, length-to_bytes n v))
add-stream (string s) w h b =
    let e : length s % 2 ^ 16 ≡ length s = omega (arith, h) in
    rw (e, take_whole s, write_two 2 s w (omega (arith, b)))
add-stream (long_string s) w h b =
    let e : length s % 2 ^ 32 ≡ length s = omega (arith, h) in
    rw (e, take_whole s, write_two 4 s w (omega (arith, b)))

abbrev bytes_of_all : List Field → List ℕ
bytes_of_all [] = []
bytes_of_all (f ∷ fs) = bytes_of f ++ bytes_of_all fs

append_nil : (xs : List ℕ) → xs ++ [] ≡ xs
append_nil [] = refl
append_nil (x ∷ xs) = ap (◌∷◌ x) (append_nil xs)

add_all-stream :
    (fs : List Field) (w : PropWriteStream)
    → All Valid fs
    → length w.stream + sizes fs < 2 ^ 31
    → (add_all fs w).stream ≡ w.stream ++ bytes_of_all fs
unfolding add_all
add_all-stream [] w h b = sym (append_nil w.stream)
add_all-stream (f ∷ fs) w h b =
    let one = add-stream f w h.0 (omega (arith, b)) in
    let l = length-append w.stream (bytes_of f) in
    let left : length (add f w).stream + sizes fs < 2 ^ 31 =
      omega (arith, ap length one, l, length-bytes_of f, b) in
    add_all-stream fs (add f w) h.1 left
    ∙ ap (λ s. s ++ bytes_of_all fs) one
    ∙ append_assoc w.stream (bytes_of f) (bytes_of_all fs)

length-bytes_of_all : (fs : List Field) → length (bytes_of_all fs) ≡ sizes fs
length-bytes_of_all [] = refl
length-bytes_of_all (f ∷ fs) =
    omega (
      arith,
      length-append (bytes_of f) (bytes_of_all fs),
      length-bytes_of f,
      length-bytes_of_all fs,
    )

get_all-bytes :
    (fs : List Field) (s : List ℕ)
    → All Valid fs
    → sizes fs + length s < 2 ^ 31
    → get_all (map kind fs) (bytes_of_all fs ++ s) ≡ ok fs s
unfolding get_all
get_all-bytes [] s h b = refl
get_all-bytes (f ∷ fs) s h b =
    let l = length-append (bytes_of_all fs) s in
    rw (
      append_assoc (bytes_of f) (bytes_of_all fs) s,
      get-bytes_of f (bytes_of_all fs ++ s) h.0 (omega (arith, b, l, length-bytes_of_all fs)),
      get_all-bytes fs s h.1 (omega (arith, b)),
    )

-- Fields that are written one after another to an empty PropWriteStream, each number within its type
-- and each string within what its length can count, together less than 2 ^ 31 bytes with the lengths
-- of the strings, are read back from a PropStream over what was written by the readers of their kinds,
-- in the same order and to the end.
pub get_all-add_all :
    (fs : List Field) (w : PropWriteStream)
    → All Valid fs
    → sizes fs < 2 ^ 31
    → get_all (map kind fs) (add_all fs (clear w)).stream ≡ ok fs []
unfolding clear
get_all-add_all fs w h b =
    rw
      (
        add_all-stream fs (record w { stream = [] }) h (omega (arith, b)),
        ← append_nil (bytes_of_all fs),
      )
      (get_all-bytes fs [] h (omega (arith, b)))
