-- ===== src/Party/Invariant.antt =====
-- The agreement of a party with its players, and that the calls of src/party.cpp keep it.
use otxserver.Common.{
  ℕ, ◌≡◌, refl, Bool, false, not, ◌&&◌, ◌||◌, Option, none, some, arith, ◌==◌, if◌then◌else◌,
  if_intro,
}
use otxserver.Common.Sets.{mem, Distinct}
use otxserver.Party.{Env, Players, Party, CountBlock}
use otxserver.Party.Experience.{
  update_experience_mult, update_shared_experience, clear_player_points, clear_found, erase_points,
  find_points,
}

-- `player->getParty() == this`
abbrev pub is_this : Option ℕ → ℕ → Bool
is_this none id = false
is_this (some k) id = k == id

-- The leader and the members.
abbrev pub belongs_to : Party → ℕ → Bool
belongs_to p x = x == p.leader || mem x p.member_list

pub record IsValid (w : Players) (p : Party) : Type 0 where
  pub belongs : (x : ℕ) → is_this (w.party_of x) p.id ≡ belongs_to p x
  pub holds : (x : ℕ) → mem p.id (w.invitations x) ≡ mem x p.invite_list
  pub once : (x : ℕ) → Distinct (w.invitations x)
  pub members : Distinct p.member_list
  pub invited : Distinct p.invite_list
  pub apart : mem p.leader p.member_list ≡ false
  pub stranger : (x : ℕ) → (mem x p.invite_list && belongs_to p x) ≡ false

-- Nobody is in the party any more, and nobody holds an invitation to it.
pub record IsGone (w : Players) (id : ℕ) : Type 0 where
  pub nobody : (x : ℕ) → is_this (w.party_of x) id ≡ false
  pub uninvited : (x : ℕ) → mem id (w.invitations x) ≡ false
  pub once : (x : ℕ) → Distinct (w.invitations x)

-- The party after a call, or its end.
abbrev pub Agrees : Players → ℕ → Option Party → Type 0
Agrees w id none = IsGone w id
Agrees w id (some p) = IsValid w p × (p.id ≡ id)

-- Two parties with the same people.
pub record SamePeople (p q : Party) : Type 0 where
  pub id : q.id ≡ p.id
  pub leader : q.leader ≡ p.leader
  pub member_list : q.member_list ≡ p.member_list
  pub invite_list : q.invite_list ≡ p.invite_list

pub update_experience_mult-SamePeople :
    (env : Env) (p : Party) → SamePeople p (update_experience_mult env p)
unfolding update_experience_mult
update_experience_mult-SamePeople env p = ground arith

pub SamePeople-refl : (p : Party) → SamePeople p p
SamePeople-refl p = record { id = refl; leader = refl; member_list = refl; invite_list = refl }

pub SamePeople-trans : (p q r : Party) → SamePeople p q → SamePeople q r → SamePeople p r
SamePeople-trans p q r h k = ground arith

pub update_shared_experience-SamePeople :
    (env : Env) (p : Party) → SamePeople p (update_shared_experience env p)
unfolding update_shared_experience
update_shared_experience-SamePeople env p =
    let once = update_experience_mult-SamePeople env p in
    let q = if env.party_vocation_mult then update_experience_mult env p else p in
    let first : SamePeople p q =
      if_intro (SamePeople p) env.party_vocation_mult once (SamePeople-refl p) in
    let twice = SamePeople-trans p q _ first (update_experience_mult-SamePeople env q) in
    if_intro (SamePeople p) (not p.shared_exp_active) (SamePeople-refl p) (
      if_intro (SamePeople p) _ (SamePeople-refl p) (record {
        id = twice.id;
        leader = twice.leader;
        member_list = twice.member_list;
        invite_list = twice.invite_list;
      }))

clear_found-SamePeople :
    (env : Env) (p : Party) (x : ℕ) (o : Option CountBlock) → SamePeople p (clear_found env p x o)
unfolding clear_found
clear_found-SamePeople env p x none = SamePeople-refl p
clear_found-SamePeople env p x (some b) =
    let q : Party = record p { point_map = erase_points x p.point_map } in
    let s = update_shared_experience-SamePeople env q in
    record {
      id = s.id;
      leader = s.leader;
      member_list = s.member_list;
      invite_list = s.invite_list;
    }

-- None of the calls for shared experience changes who is in the party.
pub clear_player_points-SamePeople :
    (env : Env) (p : Party) (x : ℕ) → SamePeople p (clear_player_points env p x)
unfolding clear_player_points
clear_player_points-SamePeople env p x = clear_found-SamePeople env p x (find_points x p.point_map)

pub SamePeople-IsValid : (w : Players) (p q : Party) → SamePeople p q → IsValid w p → IsValid w q
SamePeople-IsValid w p q s v = record {
  belongs = λ x. rw (s.id, s.leader, s.member_list) (v.belongs x);
  holds = λ x. rw (s.id, s.invite_list) (v.holds x);
  once = v.once;
  members = rw s.member_list v.members;
  invited = rw s.invite_list v.invited;
  apart = rw (s.leader, s.member_list) v.apart;
  stranger = λ x. rw (s.leader, s.member_list, s.invite_list) (v.stranger x);
}
