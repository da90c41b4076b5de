-- ===== src/Party/Lifecycle.antt =====
-- The parts of the calls of src/party.cpp that change who is in a party, and what each leaves valid.
use otxserver.Common.{
  ℕ, ◌≡◌, inl, inr, true, false, not, ◌&&◌, none, some, [], ◌∷◌, ◌++◌, arith, ◌==◌, ==_iff, ==_refl,
  Bool-cases, if_intro,
}
use otxserver.Common.Sets.{
  mem, erase, Distinct, mem-append_one, mem-erase, erase-Distinct, append_one-Distinct,
  erase_absent,
}
use otxserver.Party.{Players, Party, set_party, add_party_invitation, remove_party_invitation}
use otxserver.Party.Invariant.{IsValid}
use otxserver.Party.Worlds.{invitations-remove, party_of-remove, invitations-add, party_of-add}

-- The party that `passLeadership` makes of a member the leader of.
abbrev pub passed : Party → ℕ → Party
passed p player = record p { leader = player; member_list = p.leader ∷ erase player p.member_list }

pub passed-IsValid :
    (w : Players) (p : Party) (player : ℕ)
    → mem player p.member_list ≡ true
    → IsValid w p
    → IsValid w (passed p player)
unfolding mem
passed-IsValid w p player h v = record {
  belongs =
      λ x. ground (arith, v.belongs x, mem-erase x player p.member_list v.members, ==_iff x player);
  holds = v.holds;
  once = v.once;
  members = (
    ground (arith, v.apart, mem-erase p.leader player p.member_list v.members),
    erase-Distinct player p.member_list v.members,
  );
  invited = v.invited;
  apart = ground (arith, v.apart, mem-erase player player p.member_list v.members, ==_refl player);
  stranger = λ x.
      ground (arith, v.stranger x, mem-erase x player p.member_list v.members, ==_iff x player);
}

-- The party without `player`.
abbrev pub without : Party → ℕ → Party
without p player = record p {
  member_list = erase player p.member_list;
  invite_list = erase player p.invite_list;
}

pub without-IsValid :
    (w : Players) (p : Party) (player : ℕ)
    → mem player p.member_list ≡ true
    → (player == p.leader) ≡ false
    → IsValid w p
    → IsValid (set_party player none w) (without p player)
unfolding set_party
without-IsValid w p player h l v = record {
  belongs =
      λ x. ground (arith, v.belongs x, mem-erase x player p.member_list v.members, ==_iff x player);
  holds = λ x. rw keep (v.holds x);
  once = v.once;
  members = erase-Distinct player p.member_list v.members;
  invited = rw keep v.invited;
  apart = ground (arith, v.apart, mem-erase p.leader player p.member_list v.members);
  stranger =
      λ x. rw keep (ground (arith, v.stranger x, mem-erase x player p.member_list v.members));
}
  where
    keep : erase player p.invite_list ≡ p.invite_list
    keep = erase_absent player p.invite_list (ground (arith, v.stranger player))

-- The party with an invited player in it.
abbrev pub joined : Party → ℕ → Party
joined p player = record p {
  member_list = p.member_list ++ (player ∷ []);
  invite_list = erase player p.invite_list;
}

pub joined-IsValid :
    (w : Players) (p : Party) (player : ℕ)
    → mem player p.invite_list ≡ true
    → IsValid w p
    → IsValid
        (remove_party_invitation player p.id (set_party player (some p.id) w))
        (joined p player)
unfolding set_party
joined-IsValid w p player h v = record {
  belongs = λ x. ground (
    arith,
    v.belongs x,
    party_of-remove player p.id w1 x,
    mem-append_one x player p.member_list,
    ==_refl p.id,
  );
  holds = λ x. ground (
    arith,
    v.holds x,
    invitations-remove player p.id w1 x,
    ==_refl p.id,
    mem-erase p.id p.id (w.invitations x) (v.once x),
    mem-erase x player p.invite_list v.invited,
  );
  once = λ x. rw (invitations-remove player p.id w1 x) (
      if_intro Distinct (x == player) (erase-Distinct p.id (w.invitations x) (v.once x))
        (v.once x));
  members = append_one-Distinct player p.member_list v.members (ground (arith, v.stranger player));
  invited = erase-Distinct player p.invite_list v.invited;
  apart = ground (arith, v.apart, v.stranger player, mem-append_one p.leader player p.member_list);
  stranger = λ x. ground (
    arith,
    v.stranger x,
    mem-append_one x player p.member_list,
    mem-erase x player p.invite_list v.invited,
  );
}
  where
    w1 : Players
    w1 = set_party player (some p.id) w

-- The party with one more invitation.
abbrev pub inviting : Party → ℕ → Party
inviting p player = record p { invite_list = p.invite_list ++ (player ∷ []) }

pub inviting-IsValid :
    (w : Players) (p : Party) (player : ℕ)
    → mem player p.invite_list ≡ false
    → w.party_of player ≡ none
    → IsValid w p
    → IsValid (add_party_invitation player p.id w) (inviting p player)
inviting-IsValid w p player h free v = record {
  belongs = λ x. ground (arith, v.belongs x, party_of-add player p.id w x);
  holds = λ x. ground (
    arith,
    v.holds x,
    v.holds player,
    invitations-add player p.id w x,
    ==_refl p.id,
    ==_iff x player,
    mem-append_one p.id p.id (w.invitations x),
    mem-append_one x player p.invite_list,
  );
  once = λ x.
      rw (invitations-add player p.id w x)
        (elim (Bool-cases (x == player && not (mem p.id (w.invitations x)))) [
          | inl e ↦ rw e (append_one-Distinct p.id (w.invitations x) (v.once x) (ground arith))
          | inr e ↦ rw e (v.once x)
        ]);
  members = v.members;
  invited = append_one-Distinct player p.invite_list v.invited h;
  apart = v.apart;
  stranger = λ x. ground (
    arith,
    v.stranger x,
    v.belongs player,
    mem-append_one x player p.invite_list,
    ==_iff x player,
  );
}

-- The party with one invitation taken back.
abbrev pub revoked : Party → ℕ → Party
revoked p player = record p { invite_list = erase player p.invite_list }

pub revoked-IsValid :
    (w : Players) (p : Party) (player : ℕ)
    → IsValid w p
    → IsValid (remove_party_invitation player p.id w) (revoked p player)
revoked-IsValid w p player v = record {
  belongs = λ x. ground (arith, v.belongs x, party_of-remove player p.id w x);
  holds = λ x. ground (
    arith,
    v.holds x,
    invitations-remove player p.id w x,
    ==_refl p.id,
    mem-erase p.id p.id (w.invitations x) (v.once x),
    mem-erase x player p.invite_list v.invited,
  );
  once = λ x. rw (invitations-remove player p.id w x) (
      if_intro Distinct (x == player) (erase-Distinct p.id (w.invitations x) (v.once x))
        (v.once x));
  members = v.members;
  invited = erase-Distinct player p.invite_list v.invited;
  apart = v.apart;
  stranger = λ x. ground (arith, v.stranger x, mem-erase x player p.invite_list v.invited);
}
