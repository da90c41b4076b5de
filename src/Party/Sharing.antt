-- ===== src/Party/Sharing.antt =====
-- What the shared experience of src/party.cpp means: who may share, for how long, and the multiplier.
use otxserver.Common.{
  ℕ, ◌≤◌, ◌≡◌, refl, true, false, ◌||◌, List, [], ◌∷◌, arith, ltb, ◌==◌, if◌then◌else◌, ==_iff,
}
use otxserver.Common.Sets.{mem}
use otxserver.Position.{are_in_range}
use otxserver.Party.{Env, Party, is_empty}
use otxserver.Party.Experience.{
  update_experience_mult, highest_from, highest_level, find_points, is_active,
  can_use_shared_experience, all_can_use, can_enable_shared_experience, update_shared_experience,
}

-- What the right to share reads of a party.
pub record SameShares (p q : Party) : Type 0 where
  pub leader : q.leader ≡ p.leader
  pub member_list : q.member_list ≡ p.member_list
  pub point_map : q.point_map ≡ p.point_map

update_experience_mult-SameShares :
    (env : Env) (p : Party) → SameShares p (update_experience_mult env p)
unfolding update_experience_mult
update_experience_mult-SameShares env p = ground arith

can_use-SameShares :
    (env : Env) (p q : Party) (x h : ℕ)
    → SameShares p q
    → can_use_shared_experience env q x h ≡ can_use_shared_experience env p x h
unfolding can_use_shared_experience highest_level
can_use-SameShares env p q x h s = rw (s.leader, s.member_list, s.point_map)

all_can_use-SameShares :
    (env : Env) (p q : Party) (h : ℕ) (xs : List ℕ)
    → SameShares p q
    → all_can_use env q h xs ≡ all_can_use env p h xs
unfolding all_can_use
all_can_use-SameShares env p q h [] s = refl
all_can_use-SameShares env p q h (x ∷ xs) s =
    rw (can_use-SameShares env p q x h s, all_can_use-SameShares env p q h xs s)

can_enable-SameShares :
    (env : Env) (p q : Party)
    → SameShares p q
    → can_enable_shared_experience env q ≡ can_enable_shared_experience env p
unfolding can_enable_shared_experience highest_level
can_enable-SameShares env p q s = rw (
  all_can_use-SameShares env p q (highest_from env (env.level q.leader) q.member_list) q.member_list
      s,
  can_use-SameShares env p q q.leader (highest_from env (env.level q.leader) q.member_list) s,
  s.leader,
  s.member_list,
)

pub update_shared_experience-SameShares :
    (env : Env) (p : Party) → SameShares p (update_shared_experience env p)
unfolding update_shared_experience
update_shared_experience-SameShares env p =
    let q = if env.party_vocation_mult then update_experience_mult env p else p in
    let s = update_experience_mult-SameShares env p in
    let t = update_experience_mult-SameShares env q in ground arith

active-mult :
    (env : Env) (p : Party) → (update_experience_mult env p).shared_exp_active ≡ p.shared_exp_active
unfolding update_experience_mult
active-mult env p = ground arith

enabled-update :
    (env : Env) (p : Party)
    → p.shared_exp_active ≡ true
    → ((update_shared_experience env p).shared_exp_enabled ≡ can_enable_shared_experience env p)
      × ((update_shared_experience env p).shared_exp_active ≡ true)
unfolding update_shared_experience
enabled-update env p h =
    let q = if env.party_vocation_mult then update_experience_mult env p else p in
    ground (arith, active-mult env p, active-mult env q)

-- While shared experience is active, `updateSharedExperience` leaves it enabled exactly when the
-- party that it leaves can enable it.
pub update_shared_experience-enabled :
    (env : Env) (p : Party)
    → p.shared_exp_active ≡ true
    → let q = update_shared_experience env p in
      (q.shared_exp_enabled ≡ can_enable_shared_experience env q) × (q.shared_exp_active ≡ true)
update_shared_experience-enabled env p h =
    rw
      (can_enable-SameShares env p (update_shared_experience env p)
        (update_shared_experience-SameShares env p))
      (enabled-update env p h)

-- The loop for the highest level finds a bound of all levels.
level-le-highest_from :
    (env : Env) (h x : ℕ) (xs : List ℕ)
    → (mem x xs ≡ true → env.level x ≤ highest_from env h xs) × (h ≤ highest_from env h xs)
unfolding mem highest_from
level-le-highest_from env h x [] = (λ e. cc, omega arith)
level-le-highest_from env h x (y ∷ ys) =
    let ih = level-le-highest_from env (if ltb h (env.level y) then env.level y else h) x ys in
    (λ e. ground (arith, ih, ==_iff x y), ground (arith, ih))

level-le-highest_level :
    (env : Env) (p : Party) (x : ℕ)
    → (x == p.leader || mem x p.member_list) ≡ true
    → env.level x ≤ highest_level env p
unfolding highest_level
level-le-highest_level env p x m =
    ground
      (arith, level-le-highest_from env (env.level p.leader) x p.member_list, ==_iff x p.leader)

-- What the code asks of each player who shares.
pub record Shares (env : Env) (p : Party) (x : ℕ) : Type 0 where
  pub online : env.removed x ≡ false
  pub outside : env.in_protection_zone x ≡ false
  pub strong : env.min_level (highest_level env p) ≤ env.level x
  pub near : are_in_range env.radius (env.position p.leader) (env.position x) ≡ true
  pub active : is_active env (find_points x p.point_map) ≡ true

can_use-Shares :
    (env : Env) (p : Party) (x : ℕ)
    → can_use_shared_experience env p x (highest_level env p) ≡ true
    → Shares env p x
unfolding can_use_shared_experience
can_use-Shares env p x h = ground arith

all_can_use-mem :
    (env : Env) (p : Party) (h x : ℕ) (xs : List ℕ)
    → all_can_use env p h xs ≡ true
    → mem x xs ≡ true
    → can_use_shared_experience env p x h ≡ true
unfolding all_can_use mem
all_can_use-mem env p h x [] a m = cc
all_can_use-mem env p h x (y ∷ ys) a m = ground (arith, all_can_use-mem env p h x ys, ==_iff x y)

-- If `canEnableSharedExperience` answers true, the leader and every member may share: they are in
-- the game and out of protection zones, near the leader, have healed or done damage not too long
-- ago, and have the level asked for by the highest level of the party, which bounds all their levels.
pub can_enable-Shares :
    (env : Env) (p : Party) (x : ℕ)
    → can_enable_shared_experience env p ≡ true
    → (x == p.leader || mem x p.member_list) ≡ true
    → Shares env p x × (env.level x ≤ highest_level env p) × (is_empty p.member_list ≡ false)
unfolding can_enable_shared_experience
can_enable-Shares env p x h m =
    (can_use-Shares env p x use_x, level-le-highest_level env p x m, ground arith)
  where
    use_x : can_use_shared_experience env p x (highest_level env p) ≡ true
    use_x =
        ground
          (arith, all_can_use-mem env p (highest_level env p) x p.member_list, ==_iff x p.leader)
