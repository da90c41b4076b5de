-- ===== src/Party/Calls.antt =====
-- The calls of src/party.cpp keep the party and its players in agreement, or end the party.
use otxserver.Common.{
  ℕ, ◌≡◌, refl, inl, inr, Bool, true, false, not, ◌||◌, Option, none, some, arith, ◌==◌,
  if◌then◌else◌, Bool-cases, if_intro,
}
use otxserver.Party.{
  Env, Players, Party, remove_party_invitation, is_player_member, is_player_invited, can_disband,
}
use otxserver.Party.Experience.{
  update_experience_mult, update_shared_experience, clear_player_points,
}
use otxserver.Party.Operations.{pass_leadership, settle, part, join, remove_invite, invite_player}
use otxserver.Party.Invariant.{
  IsValid, Agrees, SamePeople, SamePeople-IsValid, SamePeople-refl, SamePeople-trans,
  update_experience_mult-SamePeople, update_shared_experience-SamePeople,
  clear_player_points-SamePeople,
}
use otxserver.Party.Disband.{Covers, IsValid-Covers, disband-IsGone}
use otxserver.Party.Lifecycle.{
  passed, passed-IsValid, without, joined, joined-IsValid, inviting-IsValid, revoked,
  revoked-IsValid,
}

maybe_mult-SamePeople :
    (env : Env) (p : Party)
    → SamePeople p (if env.party_vocation_mult then update_experience_mult env p else p)
maybe_mult-SamePeople env p =
    if_intro (SamePeople p) env.party_vocation_mult (update_experience_mult-SamePeople env p)
      (SamePeople-refl p)

pub part-SamePeople : (env : Env) (p : Party) (x : ℕ) → SamePeople (without p x) (part env p x)
unfolding part
part-SamePeople env p x =
    let p1 = without p x in
    let p2 = update_shared_experience env p1 in
    let p3 = clear_player_points env p2 x in
    SamePeople-trans p1 p2 _ (update_shared_experience-SamePeople env p1) (
      SamePeople-trans p2 p3 _ (clear_player_points-SamePeople env p2 x)
        (maybe_mult-SamePeople env p3))

-- What `disband` or keeping the party leaves.
pub settle-Agrees :
    (gone : Bool) (w : Players) (p : Party)
    → Covers w p
    → (gone ≡ false → IsValid w p)
    → Agrees (settle gone p w).players p.id (settle gone p w).party
unfolding settle
settle-Agrees true w p c v = disband-IsGone w p c
settle-Agrees false w p c v = (v refl, refl)

pub Agrees-at : (w : Players) (o : Option Party) {i j : ℕ} → i ≡ j → Agrees w i o → Agrees w j o
Agrees-at w o e h = rw e at h

-- `passLeadership` keeps the party valid.
pub pass_leadership-IsValid :
    (env : Env) (w : Players) (p : Party) (player : ℕ)
    → IsValid w p
    → IsValid w (pass_leadership env p player).1
unfolding pass_leadership is_player_member
pass_leadership-IsValid env w p player v =
    elim (Bool-cases (not (is_player_member env p (some player) false) || player == p.leader)) [
      | inl e ↦ rw e v
      | inr e ↦ rw e (
          SamePeople-IsValid w (passed p player) _
            (update_shared_experience-SamePeople env (passed p player))
            (passed-IsValid w p player (ground arith) v))
    ]

-- `join` keeps the party valid.
pub join-Agrees :
    (env : Env) (w : Players) (p : Party) (player : ℕ)
    → IsValid w p
    → Agrees (join env w p player).players p.id (join env w p player).party
unfolding join is_player_invited
join-Agrees env w p player v =
    elim (Bool-cases (
      is_player_member env p (some player) false
      || not (is_player_invited env p (some player) false))) [
        | inl e ↦ rw e (v, refl)
        | inr e ↦
            let p1 = joined p player in
            let p2 = update_shared_experience env p1 in
            let same =
              SamePeople-trans p1 p2 _ (update_shared_experience-SamePeople env p1)
                (maybe_mult-SamePeople env p2) in
            rw e
              (SamePeople-IsValid _ p1 _ same (joined-IsValid w p player (ground arith) v), same.id)
      ]

pub remove_invite-Agrees :
    (env : Env) (w : Players) (p : Party) (player : ℕ)
    → IsValid w p
    → Agrees (remove_invite env w p player).players p.id (remove_invite env w p player).party
unfolding remove_invite
remove_invite-Agrees env w p player v =
    elim (Bool-cases (not (is_player_invited env p (some player) false))) [
      | inl e ↦ rw e (v, refl)
      | inr e ↦
          let w1 = remove_party_invitation player p.id w in
          let p1 = revoked p player in
          let v1 = revoked-IsValid w p player v in
          rw e (settle-Agrees (can_disband p1) w1 p1 (IsValid-Covers w1 p1 v1) (λ _. v1))
    ]

pub invite_player-Agrees :
    (env : Env) (w : Players) (p : Party) (player : ℕ)
    → w.party_of player ≡ none
    → IsValid w p
    → Agrees (invite_player env w p player).players p.id (invite_player env w p player).party
unfolding invite_player is_player_invited
invite_player-Agrees env w p player h v =
    elim (Bool-cases (is_player_invited env p (some player) true)) [
      | inl e ↦ rw e (v, refl)
      | inr e ↦ rw e (inviting-IsValid w p player (ground arith) h v, refl)
    ]
