-- ===== src/Party/Leaving.antt =====
-- `leave` of src/party.cpp: of a member, of the leader with a successor, and of the leader without.
use otxserver.Common.{
  ℕ, ◌≡◌, refl, inl, inr, Bool, true, false, not, ◌&&◌, ◌||◌, none, some, List, [], ◌∷◌, arith,
  ◌==◌, ==_iff, ==_refl, Bool-cases, if_intro,
}
use otxserver.Common.Sets.{mem, erase, erase_absent}
use otxserver.Party.{Env, Players, Party, set_party, is_player_member, is_empty, can_disband}
use otxserver.Party.Operations.{pass_leadership, settle, succession, part, leave}
use otxserver.Party.Invariant.{
  IsValid, Agrees, SamePeople, SamePeople-IsValid, update_shared_experience-SamePeople,
}
use otxserver.Party.Disband.{Covers, IsValid-Covers}
use otxserver.Party.Lifecycle.{passed, without, without-IsValid}
use otxserver.Party.Calls.{part-SamePeople, settle-Agrees, Agrees-at, pass_leadership-IsValid}

SamePeople-Covers : (w : Players) (p q : Party) → SamePeople p q → Covers w p → Covers w q
SamePeople-Covers w p q s c = record {
  covers = λ x. rw (s.id, s.leader, s.member_list) (c.covers x);
  holds = λ x. rw (s.id, s.invite_list) (c.holds x);
  once = c.once;
  invited = rw s.invite_list c.invited;
}

-- The end of `leave`, from the party after the succession.
left-Agrees :
    (env : Env) (missing : Bool) (w : Players) (q : Party) (player : ℕ)
    → Covers w (without q player)
    → (missing ≡ false → IsValid w (without q player))
    → let p2 = part env q player in
      let o = settle (missing || can_disband p2) p2 w in Agrees o.players q.id o.party
left-Agrees env missing w q player c v =
    let p2 = part env q player in
    let s = part-SamePeople env q player in
    let gone = missing || can_disband p2 in
    let o = settle gone p2 w in
    Agrees-at o.players o.party s.id (
      settle-Agrees gone w p2 (SamePeople-Covers w (without q player) p2 s c)
        (λ e. SamePeople-IsValid w (without q player) p2 s (v (ground arith))))

-- When the leader has gone and no successor was made, nobody but the members is in the party.
leader_left-Covers :
    (w : Players) (p : Party) (player : ℕ)
    → (player == p.leader) ≡ true
    → IsValid w p
    → Covers (set_party player none w) (without p player)
unfolding set_party
leader_left-Covers w p player h v = record {
  covers = λ x. rw (erase_absent player p.member_list missing) (ground (arith, v.belongs x));
  holds = λ x. rw keep (v.holds x);
  once = v.once;
  invited = rw keep v.invited;
}
  where
    missing : mem player p.member_list ≡ false
    missing = rw ((==_iff player p.leader).0 h) v.apart

    keep : erase player p.invite_list ≡ p.invite_list
    keep = erase_absent player p.invite_list (ground (arith, v.stranger player))

-- No member of the party has been removed from the game.
abbrev pub IsOnline : Env → Party → Type 0
IsOnline env p = (x : ℕ) → (mem x p.member_list && env.removed x) ≡ false

member_left-Agrees :
    (env : Env) (w : Players) (p : Party) (player : ℕ)
    → mem player p.member_list ≡ true
    → (player == p.leader) ≡ false
    → IsValid w p
    → let p2 = part env p player in
      let o = settle (can_disband p2) p2 (set_party player none w) in Agrees o.players p.id o.party
member_left-Agrees env w p player h l v =
    let w2 = set_party player none w in
    let v2 = without-IsValid w p player h l v in
    left-Agrees env false w2 p player (IsValid-Covers w2 (without p player) v2) (λ _. v2)

pass_leadership-passed :
    (env : Env) (p : Party) (front : ℕ)
    → mem front p.member_list ≡ true
    → env.removed front ≡ false
    → (front == p.leader) ≡ false
    → SamePeople (passed p front) (pass_leadership env p front).1
unfolding pass_leadership is_player_member
pass_leadership-passed env p front h on l =
    rw (on, h, l) (update_shared_experience-SamePeople env (passed p front))

succeeded-Agrees :
    (env : Env) (w : Players) (p : Party) (player front : ℕ)
    → (player == p.leader) ≡ true
    → mem front p.member_list ≡ true
    → env.removed front ≡ false
    → IsValid w p
    → let q = (pass_leadership env p front).1 in
      let p2 = part env q player in
      let o = settle (can_disband p2) p2 (set_party player none w) in Agrees o.players p.id o.party
unfolding mem
succeeded-Agrees env w p player front l h on v =
    let q = (pass_leadership env p front).1 in
    let other : (front == p.leader) ≡ false = ground (arith, v.apart, ==_iff front p.leader) in
    let s = pass_leadership-passed env p front h on other in
    let here : mem player q.member_list ≡ true = rw s.member_list (ground (arith, l)) in
    let below : (player == q.leader) ≡ false =
      rw s.leader (ground (arith, l, other, ==_iff player p.leader)) in
    let o =
      settle (can_disband (part env q player)) (part env q player) (set_party player none w) in
    Agrees-at o.players o.party s.id
      (member_left-Agrees env w q player here below (pass_leadership-IsValid env w p front v))

front_mem :
    (env : Env) (p : Party) (front : ℕ) (rest : List ℕ)
    → p.member_list ≡ front ∷ rest
    → mem front p.member_list ≡ true
unfolding mem
front_mem env p front rest e = rw e (ground (arith, ==_refl front))

-- The end of `leave` after a succession.
abbrev Ends : Env → Players → ℕ → ℕ → Bool × Party → Type 0
Ends env w player id s =
    let p2 = part env s.1 player in
    let o = settle (s.0 || can_disband p2) p2 (set_party player none w) in
    Agrees o.players id o.party

member_of_guard :
    (env : Env) (p : Party) (player : ℕ)
    → (not (is_player_member env p (some player) false) && not (player == p.leader)) ≡ false
    → (player == p.leader) ≡ false
    → mem player p.member_list ≡ true
unfolding is_player_member
member_of_guard env p player g n = ground arith

-- `leave`, by the vector that the succession looks at.
leave_from :
    (env : Env) (w : Players) (p : Party) (player : ℕ) (ms : List ℕ)
    → p.member_list ≡ ms
    → (not (is_player_member env p (some player) false) && not (player == p.leader)) ≡ false
    → IsOnline env p
    → IsValid w p
    → Ends env w player p.id (succession env p player ms)
unfolding succession
leave_from env w p player [] e g on v = elim (Bool-cases (player == p.leader)) [
  | inl l ↦ rw l (
      left-Agrees env true (set_party player none w) p player (leader_left-Covers w p player l v)
        (λ c. cc))
  | inr n ↦ rw n (member_left-Agrees env w p player (member_of_guard env p player g n) n v)
]
leave_from env w p player (front ∷ rest) e g on v = elim (Bool-cases (player == p.leader)) [
  | inl l ↦ rw l (
      if_intro (Ends env w player p.id) (is_empty rest && is_empty p.invite_list)
        (left-Agrees env true (set_party player none w) p player (leader_left-Covers w p player l v)
          (λ c. cc))
        (succeeded-Agrees env w p player front l (front_mem env p front rest e)
          (ground (arith, on front, front_mem env p front rest e)) v))
  | inr n ↦ rw n (member_left-Agrees env w p player (member_of_guard env p player g n) n v)
]

-- `leave` keeps the party valid or ends it, if no member has been removed from the game.
pub leave-Agrees :
    (env : Env) (w : Players) (p : Party) (player : ℕ)
    → IsOnline env p
    → IsValid w p
    → Agrees (leave env w p player).players p.id (leave env w p player).party
unfolding leave
leave-Agrees env w p player on v =
    elim (Bool-cases
      (not (is_player_member env p (some player) false) && not (player == p.leader))) [
        | inl e ↦ rw e (v, refl)
        | inr e ↦ rw e (leave_from env w p player p.member_list refl e on v)
      ]
