-- ===== src/Party/Disband.antt =====
-- `disband` of src/party.cpp leaves nobody in the party and no invitation to it.
use otxserver.Common.{ℕ, ◌≡◌, false, not, ◌&&◌, none, arith, if◌then◌else◌, ==_refl, if_intro}
use otxserver.Common.Sets.{mem, erase, Distinct, mem-erase, erase-Distinct}
use otxserver.Party.{Players, Party, set_party, disband, drop_invitations}
use otxserver.Party.Invariant.{IsValid, IsGone, is_this, belongs_to}
use otxserver.Party.Worlds.{
  party_of-drop_members, invitations-drop_members, party_of-drop_invitations,
  invitations-drop_invitations,
}

-- What `disband` needs: nobody but the leader and the members is in the party.
pub record Covers (w : Players) (p : Party) : Type 0 where
  pub covers : (x : ℕ) → (is_this (w.party_of x) p.id && not (belongs_to p x)) ≡ false
  pub holds : (x : ℕ) → mem p.id (w.invitations x) ≡ mem x p.invite_list
  pub once : (x : ℕ) → Distinct (w.invitations x)
  pub invited : Distinct p.invite_list

pub IsValid-Covers : (w : Players) (p : Party) → IsValid w p → Covers w p
IsValid-Covers w p v = record {
  covers = λ x. ground (arith, v.belongs x);
  holds = v.holds;
  once = v.once;
  invited = v.invited;
}

module _ (w : Players) (p : Party) (c : Covers w p) where
  released : Players
  released = set_party p.leader none w

  freed : Players
  freed = drop_invitations p.id p.invite_list released

  disband-nobody : (x : ℕ) → is_this ((disband p w).party_of x) p.id ≡ false
  unfolding disband released freed set_party
  disband-nobody x =
      rw
        (
          party_of-drop_members p.member_list freed x,
          party_of-drop_invitations p.id p.invite_list released x,
        )
        (ground (arith, c.covers x))

  disband-list :
      (x : ℕ)
      → (disband p w).invitations x
        ≡ (if mem x p.invite_list then erase p.id (w.invitations x) else w.invitations x)
  unfolding disband released freed set_party
  disband-list x =
      rw (invitations-drop_members p.member_list freed)
        (invitations-drop_invitations p.id p.invite_list released x c.invited)

  disband-uninvited : (x : ℕ) → mem p.id ((disband p w).invitations x) ≡ false
  disband-uninvited x =
      rw (disband-list x)
        (ground (arith, c.holds x, mem-erase p.id p.id (w.invitations x) (c.once x), ==_refl p.id))

  disband-once : (x : ℕ) → Distinct ((disband p w).invitations x)
  disband-once x = rw (disband-list x) (
      if_intro Distinct (mem x p.invite_list) (erase-Distinct p.id (w.invitations x) (c.once x))
        (c.once x))

  pub disband-IsGone : IsGone (disband p w) p.id
  disband-IsGone = record {
    nobody = disband-nobody;
    uninvited = disband-uninvited;
    once = disband-once;
  }
