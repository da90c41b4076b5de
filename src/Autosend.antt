-- ===== src/Autosend.antt =====
-- src/outputmessage.cpp: the protocols whose buffered messages are sent again and again.
-- `scheduled` counts the events of `scheduleSendAll` that wait in the scheduler; a protocol and a
-- message are numbers, and `sent` is a record of what was sent.
pub mod Pool
mod Tests
use otxserver.Common.{
  ℕ, zero, suc, ◌+◌, ◌-◌, ◌*◌, ◌/◌, ◌%◌, ◌^◌, ◌≤◌, ◌<◌, min, max, ◌≡◌, refl, sym, ap, ◌∙◌, ◌≢◌, ◌↔◌,
  ◌⊎◌, inl, inr, Bool, true, false, not, ◌&&◌, ◌||◌, Option, none, some, List, [], ◌∷◌, ◌++◌, map,
  arith, ltb, leb, ◌==◌, if◌then◌else◌, ltb→lt, lt→ltb, leb→le, ==_iff, ==_refl, Bool-cases,
  Option-cases, dist, if_intro, length, get_elem?, get_or, set, take, drop, length-append,
  take-append, drop-append, All, All-append,
}

pub record Autosend : Type 0 where
  pub buffered_protocols : List ℕ
  pub scheduled : ℕ
  pub current_buffer : ℕ → Option ℕ
  pub sent : List (ℕ × ℕ)

abbrev pub is_empty : List ℕ → Bool
is_empty [] = true
is_empty (p ∷ ps) = false

-- `scheduleSendAll`
unfoldable pub schedule_send_all : Autosend → Autosend
schedule_send_all a = record a { scheduled = a.scheduled + 1 }

-- `addProtocolToAutosend`
unfoldable pub add_protocol_to_autosend : ℕ → Autosend → Autosend
add_protocol_to_autosend protocol a =
    let b = if is_empty a.buffered_protocols then schedule_send_all a else a in
    record b { buffered_protocols = b.buffered_protocols ++ (protocol ∷ []) }

abbrev pub last_of : ℕ → List ℕ → ℕ
last_of p [] = p
last_of p (q ∷ qs) = last_of q qs

abbrev pub but_last : ℕ → List ℕ → List ℕ
but_last p [] = []
but_last p (q ∷ qs) = p ∷ but_last q qs

-- `std::swap(*it, bufferedProtocols.back())` and `pop_back`, from `it` on.
abbrev pub swap_out : List ℕ → List ℕ
swap_out [] = []
swap_out (q ∷ qs) = last_of q qs ∷ but_last q qs

unfoldable pub remove_found : ℕ → List ℕ → List ℕ
remove_found protocol [] = []
remove_found protocol (p ∷ ps) = if protocol == p then swap_out ps else p ∷ remove_found protocol ps

-- `removeProtocolFromAutosend`
unfoldable pub remove_protocol_from_autosend : ℕ → Autosend → Autosend
remove_protocol_from_autosend protocol a = record a {
  buffered_protocols = remove_found protocol a.buffered_protocols;
}

abbrev pub message_of : ℕ → Option ℕ → List (ℕ × ℕ)
message_of protocol none = []
message_of protocol (some msg) = (protocol, msg) ∷ []

-- One round of the loop of `sendAll`: the message is moved out of the protocol.
unfoldable pub send_current : ℕ → Autosend → Autosend
send_current protocol a = record a {
  current_buffer = λ p. if p == protocol then none else a.current_buffer p;
  sent = a.sent ++ message_of protocol (a.current_buffer protocol);
}

unfoldable pub send_loop : List ℕ → Autosend → Autosend
send_loop [] a = a
send_loop (p ∷ ps) a = send_loop ps (send_current p a)

-- `sendAll`, when its event comes.
unfoldable pub send_all : Autosend → Autosend
send_all a =
    let b = send_loop a.buffered_protocols (record a { scheduled = a.scheduled - 1 }) in
    if is_empty b.buffered_protocols then b else schedule_send_all b
