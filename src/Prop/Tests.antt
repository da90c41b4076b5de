-- ===== src/Prop/Tests.antt =====
-- The theorems on PropStream and PropWriteStream at an item's count, its text and its owner.
use otxserver.Common.{ℕ, ◌≡◌, refl, List, [], ◌∷◌, map, arith}
use otxserver.Prop.{
  ok, overrun, is_short, copy, get_type, get_long_string, get_chars, new_stream, clear, add_type,
  add_string, add_long_string,
}
use otxserver.Prop.Reserve.{Within, add-Within}
use otxserver.Prop.RoundTrip.{Field, kind, get_all, add_all, get_all-add_all}

abbrev hi : List ℕ
hi = b'h' ∷ b'i' ∷ []

abbrev fields : List Field
fields =
    Field.number 1 100
    ∷ Field.string hi
    ∷ Field.number 4 70000
    ∷ Field.long_string (b'!' ∷ [])
    ∷ Field.string []
    ∷ []

get_all-add_all_example :
    get_all (map kind fields) (add_all fields (clear new_stream)).stream ≡ ok fields []
get_all-add_all_example =
    get_all-add_all fields new_stream
      ((omega arith, refl), (omega arith, ((omega arith, refl), (omega arith, (omega arith, tt)))))
      (omega arith)

add-Within_example :
    Within (add_type 4 70000 new_stream)
    × Within (add_string hi new_stream)
    × Within (add_long_string hi new_stream)
add-Within_example =
    add-Within 4 70000 hi new_stream (omega arith, omega arith, omega arith) (omega arith)

-- A long string whose length is 2 ^ 31 passes the test, which takes it for a negative number.
long_overrun : get_long_string (0 ∷ 0 ∷ 0 ∷ 128 ∷ []) ≡ overrun
unfolding get_long_string get_type get_chars is_short copy
long_overrun = refl
