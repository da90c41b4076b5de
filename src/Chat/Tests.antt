-- ===== src/Chat/Tests.antt =====
-- The theorem on private channels at one of the player 1.
use otxserver.Common.{ℕ, ◌+◌, false, List, [], ◌∷◌, arith}
use otxserver.Chat.{PrivateChannel}
use otxserver.Chat.Guests.{Private, Call, joins, leaves, invites, excludes, run, run-Private}

-- The GUID of a player.
abbrev guid : ℕ → ℕ
guid i = i + 10

abbrev channel : PrivateChannel
channel = record { owner = 11; invites = []; users = λ i. false }

abbrev calls : List Call
calls = joins false 1 ∷ invites 1 2 ∷ joins false 2 ∷ joins false 3 ∷ excludes 1 2 ∷ leaves 1 ∷ []

run-Private_example : Private guid (run guid calls channel)
run-Private_example = run-Private guid calls channel (λ i j h. omega arith) (tt, λ i h. cc)
