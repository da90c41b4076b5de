-- ===== src/Network/Tests.antt =====
-- The theorems on messages at concrete inputs.
use otxserver.Common.{
  if◌then◌else◌, ◌==◌, ◌≤◌, ◌<◌, ◌≡◌, refl, inr, true, false, List, [], ◌∷◌, map, arith,
}
use otxserver.Common.Memory.{peek_bytes}
use otxserver.Position.{Position}
use otxserver.Network.{
  get_string, get_chars, get_position, get_byte, Message, max_body_length, get, reset, can_read,
}
use otxserver.Network.Fields.{Field, kind_of, number, chars, spot}
use otxserver.Network.RoundTrip.{write_all, read_all, rewind, read_all-write_all}
use otxserver.Network.Bounds.{Write, string, place, do_writes, do_writes_frame}
use otxserver.Network.Bounds
use otxserver.Network.Reads
use otxserver.Network.Reads.{Read, Inside, do_reads, do_read, do_reads_frame}

abbrev blank : Message
blank = record { buffer = λ _. 0; length = 0; position = 8; overrun = false }

-- A message that has run to the end of its body.
abbrev full : Message
full = record { buffer = λ _. 7; length = 65510; position = 65518; overrun = false }

abbrev temple : Position
temple = record { x = 32369; y = 32241; z = 7 }

abbrev fields : List Field
fields = number 1 0x14 ∷ chars (b'h' ∷ b'i' ∷ []) ∷ spot temple ∷ number 4 70000 ∷ []

read_all-write_all_example :
    let sent = write_all fields (reset blank) in
    (read_all (map kind_of fields) (rewind sent) ≡ (fields, sent)) × (sent.overrun ≡ false)
read_all-write_all_example = read_all-write_all fields blank (omega arith) (omega arith)

abbrev writes : List Write
writes = Bounds.number 2 513 ∷ string (1 ∷ 2 ∷ 3 ∷ []) ∷ place temple ∷ []

do_writes_frame_example :
    ((do_writes writes full).buffer 65521 ≡ full.buffer 65521)
    × (full.position ≤ (do_writes writes full).position)
    × ((do_writes writes full).position < max_body_length)
do_writes_frame_example = do_writes_frame writes full 65521 (omega arith) (inr (omega arith))

-- Ten bytes were received, of which a string takes all that is left.
abbrev received : Message
received = record {
  buffer = λ j. if j == 10 then 6 else 0;
  length = 10;
  position = 8;
  overrun = false;
}

abbrev requests : List Read
requests = Reads.number 2 ∷ Reads.string 0 ∷ Reads.place ∷ []

do_reads_frame_example :
    ((do_reads requests received).buffer ≡ received.buffer)
    × ((do_reads requests received).length ≡ 10)
    × (8 ≤ (do_reads requests received).position)
    × Inside (do_reads requests received)
    × (false ≡ true → (do_reads requests received).overrun ≡ true)
do_reads_frame_example = do_reads_frame requests received (omega arith, omega arith)

stops_at_end :
    ((do_reads requests received).position ≡ 18) × ((do_reads requests received).overrun ≡ true)
unfolding do_reads do_read get_string get_chars get_position get_byte get can_read peek_bytes
stops_at_end = (refl, refl)

-- Past the end of what was received a read answers 0.
get_overrun : get 2 blank ≡ (0, record blank { overrun = true })
unfolding get can_read
get_overrun = refl
