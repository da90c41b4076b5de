-- ===== src/Party/Operations.antt =====
-- The calls of src/party.cpp that change who is in the party or invited to it.
use otxserver.Common.{
  ℕ, Bool, true, false, not, ◌&&◌, ◌||◌, none, some, List, [], ◌∷◌, ◌++◌, ◌==◌, if◌then◌else◌,
}
use otxserver.Common.Sets.{erase}
use otxserver.Party.{
  Env, Players, Party, Outcome, set_party, add_party_invitation, remove_party_invitation,
  is_player_member, is_player_invited, is_empty, can_disband, disband,
}
use otxserver.Party.Experience.{
  update_experience_mult, update_shared_experience, clear_player_points,
}

-- `passLeadership`
unfoldable pub pass_leadership : Env → Party → ℕ → Bool × Party
pass_leadership env p player =
    if not (is_player_member env p (some player) false) || player == p.leader then (false, p) else (
      true,
      update_shared_experience env
          (record p { leader = player; member_list = p.leader ∷ erase player p.member_list }),
    )

-- `disband()` of what is left, or the party as it is.
unfoldable pub settle : Bool → Party → Players → Outcome
settle gone p w =
    if gone
    then record { answer = true; players = disband p w; party = none }
    else record { answer = true; players = w; party = some p }

-- `missingLeader` and the party after `passLeadership(memberList.front())`.
unfoldable pub succession : Env → Party → ℕ → List ℕ → Bool × Party
succession env p player [] = (player == p.leader, p)
succession env p player (front ∷ rest) =
    if player == p.leader
    then (if is_empty rest && is_empty p.invite_list
        then (true, p)
        else (false, (pass_leadership env p front).1))
    else (false, p)

-- What `leave` does to the party itself: the player leaves both vectors, and the shared experience,
-- the points and the multiplier are brought up to date.
unfoldable pub part : Env → Party → ℕ → Party
part env p player =
    let p1 : Party = record p {
      member_list = erase player p.member_list;
      invite_list = erase player p.invite_list;
    } in
    let p2 = clear_player_points env (update_shared_experience env p1) player in
    if env.party_vocation_mult then update_experience_mult env p2 else p2

-- `leave`
unfoldable pub leave : Env → Players → Party → ℕ → Outcome
leave env w p player =
    let (missing_leader, p1) = succession env p player p.member_list in
    let p2 = part env p1 player in
    if not (is_player_member env p (some player) false) && not (player == p.leader)
    then record { answer = false; players = w; party = some p }
    else settle (missing_leader || can_disband p2) p2 (set_party player none w)

-- `join`
unfoldable pub join : Env → Players → Party → ℕ → Outcome
join env w p player =
    let p1 : Party = record p {
      member_list = p.member_list ++ (player ∷ []);
      invite_list = erase player p.invite_list;
    } in
    let p2 = update_shared_experience env p1 in
    let p3 = if env.party_vocation_mult then update_experience_mult env p2 else p2 in
    if is_player_member env p (some player) false
      || not (is_player_invited env p (some player) false)
    then record { answer = false; players = w; party = some p }
    else record {
      answer = true;
      players = remove_party_invitation player p.id (set_party player (some p.id) w);
      party = some p3;
    }

-- `removeInvite`
unfoldable pub remove_invite : Env → Players → Party → ℕ → Outcome
remove_invite env w p player =
    let p1 : Party = record p { invite_list = erase player p.invite_list } in
    if not (is_player_invited env p (some player) false)
    then record { answer = false; players = w; party = some p }
    else settle (can_disband p1) p1 (remove_party_invitation player p.id w)

-- `revokeInvitation`, which answers nothing: the answer is true.
unfoldable pub revoke_invitation : Env → Players → Party → ℕ → Outcome
revoke_invitation env w p player =
    if env.removed player
    then record { answer = true; players = w; party = some p }
    else record (remove_invite env w p player) { answer = true }

-- `invitePlayer`
unfoldable pub invite_player : Env → Players → Party → ℕ → Outcome
invite_player env w p player =
    if is_player_invited env p (some player) true
    then record { answer = false; players = w; party = some p }
    else record {
      answer = true;
      players = add_party_invitation player p.id w;
      party = some (record p { invite_list = p.invite_list ++ (player ∷ []) });
    }
