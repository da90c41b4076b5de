-- ===== src/Party/Reach.antt =====
-- A party over its life: what src/game.cpp may call, from the making of the party to its end.
use otxserver.Common.{
  ℕ, ◌≡◌, refl, ◌⊎◌, inl, inr, Bool, true, false, not, ◌&&◌, ◌||◌, Option, none, some, ◌∷◌, arith,
  ◌==◌, ==_refl, Bool-cases, if_intro,
}
use otxserver.Common.Sets.{mem, Distinct}
use otxserver.Party.{
  Env, Players, Party, Outcome, set_party, disband, drop_invitations, new_party, is_player_member,
}
use otxserver.Party.Experience.{
  update_shared_experience, set_shared_experience, add_player_healed_member,
  add_player_damage_monster, clear_player_points,
}
use otxserver.Party.Operations.{
  pass_leadership, settle, leave, join, remove_invite, revoke_invitation, invite_player,
}
use otxserver.Party.Invariant.{
  IsValid, IsGone, Agrees, SamePeople, is_this, SamePeople-IsValid, SamePeople-trans,
  update_shared_experience-SamePeople, clear_player_points-SamePeople,
}
use otxserver.Party.Worlds.{party_of-drop_members, party_of-drop_invitations}
use otxserver.Party.Calls.{
  Agrees-at, join-Agrees, remove_invite-Agrees, invite_player-Agrees, pass_leadership-IsValid,
}
use otxserver.Party.Leaving.{IsOnline, leave-Agrees}

pub data Call : Type 0 where
  invites joins leaves removes revokes passes clears : ℕ → Call
  shares : ℕ → Bool → Call
  heals damages : ℕ → ℕ → Call

-- A call that changes the party alone.
abbrev pub stays : Players → Bool → Party → Outcome
stays w answer p = record { answer = answer; players = w; party = some p }

unfoldable pub run_call : Env → Call → Players → Party → Outcome
run_call env (invites x) w p = invite_player env w p x
run_call env (joins x) w p = join env w p x
run_call env (leaves x) w p = leave env w p x
run_call env (removes x) w p = remove_invite env w p x
run_call env (revokes x) w p = revoke_invitation env w p x
run_call env (passes x) w p = stays w (pass_leadership env p x).0 (pass_leadership env p x).1
run_call env (clears x) w p = stays w true (clear_player_points env p x)
run_call env (shares x b) w p =
    stays w (set_shared_experience env p x b).0 (set_shared_experience env p x b).1
run_call env (heals x n) w p = stays w true (add_player_healed_member env p x n)
run_call env (damages x n) w p = stays w true (add_player_damage_monster env p x n)

-- What the callers see to: `Game::playerInviteToParty` invites nobody who is in a party, and a player
-- leaves the party before it is removed from the game.
abbrev pub Allowed : Env → Call → Players → Party → Type 0
Allowed env (invites x) w p = w.party_of x ≡ none
Allowed env (leaves x) w p = IsOnline env p
Allowed env _ w p = Unit {0}

-- The calls of other parties change nothing that concerns this one.
pub record Elsewhere (id : ℕ) (w v : Players) : Type 0 where
  pub same_party : (x : ℕ) → is_this (v.party_of x) id ≡ is_this (w.party_of x) id
  pub same_list : (x : ℕ) → mem id (v.invitations x) ≡ mem id (w.invitations x)
  pub once : (x : ℕ) → Distinct (v.invitations x)

pub data Reach (id : ℕ) : Players → Option Party → Type 0 where
  founded :
      (w : Players) (leader : ℕ)
      → IsGone w id
      → Reach id (new_party id leader w).1 (some (new_party id leader w).0)
  called :
      {w : Players} {p : Party} (env : Env) (c : Call)
      → Reach id w (some p)
      → Allowed env c w p
      → Reach id (run_call env c w p).players (run_call env c w p).party
  elsewhere :
      {w : Players} {p : Party} (v : Players)
      → Reach id w (some p)
      → Elsewhere id w v
      → Reach id v (some p)

new_party-IsValid :
    (id leader : ℕ) (w : Players)
    → IsGone w id
    → IsValid (new_party id leader w).1 (new_party id leader w).0
unfolding new_party set_party mem
new_party-IsValid id leader w g = record {
  belongs = λ x. ground (arith, g.nobody x, ==_refl id);
  holds = g.uninvited;
  once = g.once;
  members = tt;
  invited = tt;
  apart = refl;
  stranger = λ x. refl;
}

Elsewhere-IsValid :
    (id : ℕ) (w v : Players) (p : Party) → p.id ≡ id → Elsewhere id w v → IsValid w p → IsValid v p
Elsewhere-IsValid id w v p i e h = record {
  belongs = λ x. ground (arith, e.same_party x, h.belongs x);
  holds = λ x. ground (arith, e.same_list x, h.holds x);
  once = e.once;
  members = h.members;
  invited = h.invited;
  apart = h.apart;
  stranger = h.stranger;
}

set_shared_experience-SamePeople :
    (env : Env) (p : Party) (x : ℕ) (b : Bool) → SamePeople p (set_shared_experience env p x b).1
unfolding set_shared_experience
set_shared_experience-SamePeople env p x b = ground arith

points-SamePeople :
    (env : Env) (p q : Party) → SamePeople p q → SamePeople p (update_shared_experience env q)
points-SamePeople env p q s = SamePeople-trans p q _ s (update_shared_experience-SamePeople env q)

keeps : (w : Players) (p q : Party) → SamePeople p q → IsValid w p → IsValid w q × (q.id ≡ p.id)
keeps w p q s v = (SamePeople-IsValid w p q s v, s.id)

pass_leadership-id : (env : Env) (p : Party) (x : ℕ) → (pass_leadership env p x).1.id ≡ p.id
unfolding pass_leadership
pass_leadership-id env p x =
    if_intro (λ (s : Bool × Party). s.1.id ≡ p.id)
      (not (is_player_member env p (some x) false) || x == p.leader) refl
      (update_shared_experience-SamePeople env
        (record p { leader = x; member_list = p.leader ∷ _ })).id

run_call-Agrees :
    (env : Env) (c : Call) (w : Players) (p : Party)
    → Allowed env c w p
    → IsValid w p
    → Agrees (run_call env c w p).players p.id (run_call env c w p).party
unfolding run_call revoke_invitation add_player_healed_member add_player_damage_monster
run_call-Agrees env (invites x) w p h v = invite_player-Agrees env w p x h v
run_call-Agrees env (joins x) w p h v = join-Agrees env w p x v
run_call-Agrees env (leaves x) w p h v = leave-Agrees env w p x h v
run_call-Agrees env (removes x) w p h v = remove_invite-Agrees env w p x v
run_call-Agrees env (revokes x) w p h v =
    if_intro (λ (o : Outcome). Agrees o.players p.id o.party) (env.removed x) (v, refl)
      (remove_invite-Agrees env w p x v)
run_call-Agrees env (passes x) w p h v =
    (pass_leadership-IsValid env w p x v, pass_leadership-id env p x)
run_call-Agrees env (clears x) w p h v = keeps w p _ (clear_player_points-SamePeople env p x) v
run_call-Agrees env (shares x b) w p h v =
    keeps w p _ (set_shared_experience-SamePeople env p x b) v
run_call-Agrees env (heals x n) w p h v = keeps w p _ (points-SamePeople env p _ (ground arith)) v
run_call-Agrees env (damages x n) w p h v = keeps w p _ (points-SamePeople env p _ (ground arith)) v

Agrees-call :
    (id : ℕ) (env : Env) (c : Call) (w : Players) (p : Party)
    → Allowed env c w p
    → IsValid w p × (p.id ≡ id)
    → Agrees (run_call env c w p).players id (run_call env c w p).party
Agrees-call id env c w p h v =
    let o = run_call env c w p in Agrees-at o.players o.party v.1 (run_call-Agrees env c w p h v.0)

-- Through any sequence of calls, in which only players without a party are invited and no member
-- is removed from the game before it has left, and whatever other parties do meanwhile: while the
-- party lives, exactly its leader and its members have it as their party, exactly the invited
-- players hold an invitation to it, nobody is in one of its two vectors twice, and no invited player
-- is the leader or a member. When it has been deleted, nobody has it as their party and nobody holds
-- an invitation to it.
pub Reach-Agrees : {id : ℕ} {w : Players} {o : Option Party} → Reach id w o → Agrees w id o
unfolding new_party
Reach-Agrees (founded w leader g) = (new_party-IsValid _ leader w g, refl)
Reach-Agrees (called {w} {p} env c r h) = Agrees-call _ env c w p h (Reach-Agrees r)
Reach-Agrees (elsewhere {w} {p} v r e) =
    let h = Reach-Agrees r in (Elsewhere-IsValid _ w v p h.1 e h.0, h.1)

settle-quits :
    (gone : Bool) (w : Players) (p : Party) (x id : ℕ)
    → w.party_of x ≡ none
    → is_this ((settle gone p w).players.party_of x) id ≡ false
unfolding settle disband set_party
settle-quits false w p x id h = rw h
settle-quits true w p x id h =
    let left = set_party p.leader none w in
    let freed = drop_invitations p.id p.invite_list left in
    ground (
      arith,
      party_of-drop_members p.member_list freed x,
      party_of-drop_invitations p.id p.invite_list left x,
    )

settle-answer : (gone : Bool) (p : Party) (w : Players) → (settle gone p w).answer ≡ true
unfolding settle
settle-answer true p w = refl
settle-answer false p w = refl

quit_party : (x : ℕ) (w : Players) → (set_party x none w).party_of x ≡ none
unfolding set_party
quit_party x w = ground (arith, ==_refl x)

guard_means :
    (env : Env) (p : Party) (x : ℕ)
    → (not (is_player_member env p (some x) false) && not (x == p.leader)) ≡ false
    → ((env.removed x ≡ false) × (mem x p.member_list ≡ true)) ⊎ (x ≡ p.leader)
unfolding is_player_member
guard_means env p x e = ground arith

-- A `leave` that answers true is one of the leader or of a member who has not been removed from the
-- game, and puts the player out of the party; one that answers false changes nothing.
pub leave_cases :
    (env : Env) (w : Players) (p : Party) (x : ℕ)
    → (((leave env w p x).answer ≡ true)
        × ((env.removed x ≡ false) × (mem x p.member_list ≡ true) ⊎ (x ≡ p.leader))
        × (is_this ((leave env w p x).players.party_of x) p.id ≡ false))
      ⊎ (leave env w p x ≡ record { answer = false; players = w; party = some p })
unfolding leave
leave_cases env w p x =
    elim (Bool-cases (not (is_player_member env p (some x) false) && not (x == p.leader))) [
      | inl e ↦ inr (rw e)
      | inr e ↦ inl (
        rw e (settle-answer _ _ _),
        guard_means env p x e,
        rw e (settle-quits _ (set_party x none w) _ x p.id (quit_party x w)),
      )
    ]
