-- ===== src/Party/Worlds.antt =====
-- The players after the calls that write to them.
use otxserver.Common.{
  ℕ, ◌≡◌, refl, ◌∙◌, not, ◌&&◌, none, List, [], ◌∷◌, ◌++◌, arith, ◌==◌, if◌then◌else◌,
}
use otxserver.Common.Sets.{mem, erase, Distinct, erase_absent}
use otxserver.Party.{
  Players, set_party, add_party_invitation, remove_party_invitation, drop_members, drop_invitations,
}

-- The lists of invitations after an invitation is taken back.
pub invitations-remove :
    (y id : ℕ) (w : Players) (x : ℕ)
    → (remove_party_invitation y id w).invitations x
      ≡ (if x == y then erase id (w.invitations x) else w.invitations x)
unfolding remove_party_invitation
invitations-remove y id w x = ground (arith, erase_absent id (w.invitations y))

pub party_of-remove :
    (y id : ℕ) (w : Players) (x : ℕ) → (remove_party_invitation y id w).party_of x ≡ w.party_of x
unfolding remove_party_invitation
party_of-remove y id w x = ground arith

pub invitations-add :
    (y id : ℕ) (w : Players) (x : ℕ)
    → (add_party_invitation y id w).invitations x ≡ (
        if x == y && not (mem id (w.invitations x))
        then w.invitations x ++ (id ∷ [])
        else w.invitations x)
unfolding add_party_invitation
invitations-add y id w x = ground arith

pub party_of-add :
    (y id : ℕ) (w : Players) (x : ℕ) → (add_party_invitation y id w).party_of x ≡ w.party_of x
unfolding add_party_invitation
party_of-add y id w x = ground arith

pub party_of-drop_members :
    (xs : List ℕ) (w : Players) (x : ℕ)
    → (drop_members xs w).party_of x ≡ (if mem x xs then none else w.party_of x)
unfolding drop_members set_party mem
party_of-drop_members [] w x = refl
party_of-drop_members (y ∷ ys) w x = ground (arith, party_of-drop_members ys (set_party y none w) x)

pub invitations-drop_members :
    (xs : List ℕ) (w : Players) → (drop_members xs w).invitations ≡ w.invitations
unfolding drop_members set_party
invitations-drop_members [] w = refl
invitations-drop_members (y ∷ ys) w = invitations-drop_members ys (set_party y none w)

pub party_of-drop_invitations :
    (id : ℕ) (xs : List ℕ) (w : Players) (x : ℕ)
    → (drop_invitations id xs w).party_of x ≡ w.party_of x
unfolding drop_invitations
party_of-drop_invitations id [] w x = refl
party_of-drop_invitations id (y ∷ ys) w x =
    party_of-drop_invitations id ys (remove_party_invitation y id w) x ∙ party_of-remove y id w x

pub invitations-drop_invitations :
    (id : ℕ) (xs : List ℕ) (w : Players) (x : ℕ)
    → Distinct xs
    → (drop_invitations id xs w).invitations x
      ≡ (if mem x xs then erase id (w.invitations x) else w.invitations x)
unfolding drop_invitations mem
invitations-drop_invitations id [] w x d = refl
invitations-drop_invitations id (y ∷ ys) w x d = ground (
  arith,
  invitations-drop_invitations id ys (remove_party_invitation y id w) x d.1,
  invitations-remove y id w x,
)
