-- ===== src/Autosend/Pool.antt =====
-- The protocols in the autosend of src/outputmessage.cpp and what is scheduled for them.
use otxserver.Common.{
  ℕ, ◌+◌, ◌-◌, ◌≤◌, ◌≡◌, refl, ap, ◌∙◌, ◌⊎◌, inl, inr, true, not, ◌&&◌, ◌||◌, none, List, [], ◌∷◌,
  arith, ◌==◌, if◌then◌else◌, Bool-cases, if_intro,
}
use otxserver.Common.Sets.{mem, Distinct}
use otxserver.Autosend.{
  Autosend, is_empty, schedule_send_all, add_protocol_to_autosend, last_of, but_last, swap_out,
  remove_found, remove_protocol_from_autosend, send_current, send_loop, send_all,
}

mem-but_last :
    (x p : ℕ) (ps : List ℕ) → (x == last_of p ps || mem x (but_last p ps)) ≡ mem x (p ∷ ps)
unfolding mem
mem-but_last x p [] = refl
mem-but_last x p (q ∷ qs) = ground (arith, mem-but_last x q qs)

mem-swap_out : (x : ℕ) (ps : List ℕ) → mem x (swap_out ps) ≡ mem x ps
unfolding mem
mem-swap_out x [] = refl
mem-swap_out x (p ∷ ps) = mem-but_last x p ps

mem-remove_found :
    (x p : ℕ) (ps : List ℕ) → Distinct ps → mem x (remove_found p ps) ≡ (mem x ps && not (x == p))
unfolding mem remove_found
mem-remove_found x p [] d = refl
mem-remove_found x p (q ∷ qs) d = ground (arith, mem-remove_found x p qs d.1, mem-swap_out x qs)

-- Where each protocol is in the autosend at most once, the removal of one takes it out and leaves the
-- others, although the last takes its place.
pub mem-remove_protocol :
    (x p : ℕ) (a : Autosend)
    → Distinct a.buffered_protocols
    → mem x (remove_protocol_from_autosend p a).buffered_protocols
      ≡ (mem x a.buffered_protocols && not (x == p))
unfolding remove_protocol_from_autosend
mem-remove_protocol x p a d = mem-remove_found x p a.buffered_protocols d

send_loop-frame :
    (ps : List ℕ) (a : Autosend)
    → ((send_loop ps a).buffered_protocols ≡ a.buffered_protocols)
      × ((send_loop ps a).scheduled ≡ a.scheduled)
unfolding send_loop send_current
send_loop-frame [] a = (refl, refl)
send_loop-frame (p ∷ ps) a = send_loop-frame ps (send_current p a)

send_loop-buffer :
    (x : ℕ) (ps : List ℕ) (a : Autosend)
    → (send_loop ps a).current_buffer x ≡ (if mem x ps then none else a.current_buffer x)
unfolding send_loop send_current mem
send_loop-buffer x [] a = refl
send_loop-buffer x (p ∷ ps) a = ground (arith, send_loop-buffer x ps (send_current p a))

-- After `sendAll` no protocol of the autosend has a buffered message, the buffers of the others are as
-- they were, the protocols stay, and the next `sendAll` is scheduled where there is a protocol.
pub send_all_lem :
    (x : ℕ) (a : Autosend)
    → ((send_all a).current_buffer x
        ≡ (if mem x a.buffered_protocols then none else a.current_buffer x))
      × ((send_all a).buffered_protocols ≡ a.buffered_protocols)
      × ((send_all a).scheduled
          ≡ (if is_empty a.buffered_protocols then a.scheduled - 1 else a.scheduled - 1 + 1))
unfolding send_all schedule_send_all
send_all_lem x a =
    let b : Autosend = record a { scheduled = a.scheduled - 1 } in
    let f = send_loop-frame a.buffered_protocols b in
    let g = send_loop-buffer x a.buffered_protocols b in
    rw f.0 (elim (Bool-cases (is_empty a.buffered_protocols)) [
      | inl e ↦ rw e (g, refl, f.1)
      | inr e ↦ rw e (g, refl, ap (λ n. n + 1) f.1)
    ])

-- What the pool is asked to do, and the coming of a scheduled event.
pub data Event : Type 0 where
  adds removes : ℕ → Event
  fires : Event

unfoldable pub apply : Event → Autosend → Autosend
apply (adds p) a = add_protocol_to_autosend p a
apply (removes p) a = remove_protocol_from_autosend p a
apply fires a = if a.scheduled == 0 then a else send_all a

unfoldable pub run : List Event → Autosend → Autosend
run [] a = a
run (e ∷ es) a = run es (apply e a)

-- While there is a protocol, an event waits.
abbrev pub Served : Autosend → Type 0
Served a = (is_empty a.buffered_protocols ≡ true) ⊎ (1 ≤ a.scheduled)

remove_found-is_empty :
    (p : ℕ) (ps : List ℕ) → is_empty ps ≡ true → is_empty (remove_found p ps) ≡ true
unfolding remove_found
remove_found-is_empty p [] h = refl
remove_found-is_empty p (q ∷ qs) h = cc

apply-Served : (e : Event) (a : Autosend) → Served a → Served (apply e a)
unfolding apply add_protocol_to_autosend remove_protocol_from_autosend schedule_send_all
apply-Served (adds p) a (inl h) = rw h (inr (omega arith))
apply-Served (adds p) a (inr h) = elim (Bool-cases (is_empty a.buffered_protocols)) [
  | inl e ↦ rw e (inr (omega arith))
  | inr e ↦ rw e (inr h)
]
apply-Served (removes p) a (inl h) = inl (remove_found-is_empty p a.buffered_protocols h)
apply-Served (removes p) a (inr h) = inr h
apply-Served fires a h = if_intro Served (a.scheduled == 0) h (
    let l = send_all_lem 0 a in
    elim (Bool-cases (is_empty a.buffered_protocols)) [
      | inl e ↦ inl (ap is_empty l.1 ∙ e)
      | inr e ↦ inr (let k = rw e at l.2 in omega (arith, k))
    ])

-- Through any additions, removals and firings of scheduled events: while there is a protocol in the
-- autosend, a `sendAll` is scheduled, if that held at first.
pub run-Served : (es : List Event) (a : Autosend) → Served a → Served (run es a)
unfolding run
run-Served [] a h = h
run-Served (e ∷ es) a h = run-Served es (apply e a) (apply-Served e a h)
