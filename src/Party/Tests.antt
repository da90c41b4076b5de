-- ===== src/Party/Tests.antt =====
-- The theorems on parties at a party of three, with a fourth player invited.
use otxserver.Common.{◌+◌, ◌*◌, ◌/◌, ◌≤◌, ◌≡◌, refl, ◌⊎◌, true, false, none, some, [], ◌∷◌}
use otxserver.Common.Sets.{mem}
use otxserver.Position.{Position, are_in_range}
use otxserver.Party.{
  Env, Players, Party, Outcome, Multiplier, CountBlock, new_party, is_empty, set_party,
}
use otxserver.Party.Experience.{
  can_use_shared_experience, all_can_use, highest_from, is_active, can_enable_shared_experience,
  find_points, highest_level,
}
use otxserver.Party.Operations.{leave}
use otxserver.Party.Invariant.{IsGone, Agrees, is_this}
use otxserver.Party.Reach.{Reach, Call, run_call, Reach-Agrees, leave_cases}
use otxserver.Party.Sharing.{Shares, can_enable-Shares}

abbrev square : Position
square = record { x = 100; y = 100; z = 7 }

abbrev env : Env
env = record {
  removed = λ x. false;
  level = λ x. 20 + x;
  vocation_id = λ x. x;
  in_protection_zone = λ x. false;
  position = λ x. square;
  guid = λ x. x;
  by_guid = λ g. some g;
  now = 5000;
  radius = record { x = 30; y = 30; z = 1 };
  min_level = λ h. h * 2 / 3;
  share_activity = 2000;
  party_vocation_mult = true;
}

abbrev alone : Players
alone = record { party_of = λ x. none; invitations = λ x. [] }

abbrev block : CountBlock
block = record { ticks = 4000; total_heal = 3; total_damage = 0 }

-- The leader 1 and the member 2 have been active.
abbrev pair : Party
pair = record {
  id = 9;
  leader = 1;
  member_list = 2 ∷ [];
  invite_list = [];
  shared_exp_active = true;
  shared_exp_enabled = false;
  exp_multiplier = Multiplier.one;
  point_map = (1, block) ∷ (2, block) ∷ [];
}

alone-IsGone : IsGone alone 9
unfolding mem
alone-IsGone = record { nobody = λ x. refl; uninvited = λ x. refl; once = λ x. tt }

abbrev founded : Players × Party
founded = ((new_party 9 1 alone).1, (new_party 9 1 alone).0)

founded-Reach : Reach 9 founded.0 (some founded.1)
founded-Reach = Reach.founded alone 1 alone-IsGone

abbrev invited : Outcome
invited = run_call env (Call.invites 2) founded.0 founded.1

invited-Reach : Reach 9 invited.players invited.party
unfolding new_party set_party
invited-Reach = Reach.called env (Call.invites 2) founded-Reach refl

Reach-Agrees_example : Agrees invited.players 9 invited.party
Reach-Agrees_example = Reach-Agrees invited-Reach

leave_cases_example :
    (((leave env alone pair 2).answer ≡ true)
      × ((env.removed 2 ≡ false) × (mem 2 pair.member_list ≡ true) ⊎ (2 ≡ pair.leader))
      × (is_this ((leave env alone pair 2).players.party_of 2) pair.id ≡ false))
    ⊎ (leave env alone pair 2 ≡ record { answer = false; players = alone; party = some pair })
leave_cases_example = leave_cases env alone pair 2

pair_shares : can_enable_shared_experience env pair ≡ true
unfolding can_enable_shared_experience can_use_shared_experience all_can_use highest_level
    highest_from find_points is_active are_in_range
pair_shares = refl

can_enable-Shares_example :
    Shares env pair 2 × (env.level 2 ≤ highest_level env pair) × (is_empty pair.member_list ≡ false)
unfolding mem
can_enable-Shares_example = can_enable-Shares env pair 2 pair_shares refl
