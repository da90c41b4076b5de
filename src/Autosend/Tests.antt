-- ===== src/Autosend/Tests.antt =====
-- The theorems on the autosend at three protocols.
use otxserver.Common.{◌+◌, ◌≡◌, refl, inr, none, some, List, [], ◌∷◌, arith, ◌==◌, if◌then◌else◌}
use otxserver.Autosend.{
  Autosend, remove_protocol_from_autosend, add_protocol_to_autosend, schedule_send_all,
  remove_found,
}
use otxserver.Autosend.Pool.{Event, adds, removes, fires, run, Served, run-Served}

abbrev three : Autosend
three = record {
  buffered_protocols = 1 ∷ 2 ∷ 3 ∷ [];
  scheduled = 1;
  current_buffer = λ p. if p == 2 then none else some (p + 10);
  sent = [];
}

abbrev events : List Event
events = fires ∷ removes 1 ∷ adds 4 ∷ removes 2 ∷ fires ∷ []

run-Served_example : Served (run events three)
run-Served_example = run-Served events three (inr (omega arith))

-- Where the last protocol goes and another comes before the event, two events wait from then on.
twice_scheduled :
    (add_protocol_to_autosend 4
      (remove_protocol_from_autosend 1 (record three { buffered_protocols = 1 ∷ [] }))).scheduled
    ≡ 2
unfolding add_protocol_to_autosend remove_protocol_from_autosend remove_found schedule_send_all
twice_scheduled = refl
