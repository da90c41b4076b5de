-- ===== src/Party/Points.antt =====
-- The points of the members and the multiplier for the vocations, in src/party.cpp.
use otxserver.Common.{
  ℕ, ◌+◌, ◌≡◌, refl, inl, inr, Bool, false, ◌||◌, Option, none, some, List, [], ◌∷◌, arith, ◌==◌,
  if◌then◌else◌, ==_iff, Bool-cases,
}
use otxserver.Party.{Env, Party, Multiplier, CountBlock}
use otxserver.Party.Experience.{
  Flags, mark, mark_all, no_flags, multiplier_of, update_experience_mult, find_points, erase_points,
  set_points, add_player_healed_member, add_player_damage_monster, healed_block, damage_block,
  clear_found, clear_player_points,
}
use otxserver.Party.Sharing.{update_shared_experience-SameShares}

-- Some player of the list has the vocation `k` or its promotion, `k + 4`.
abbrev pub any_of : Env → ℕ → List ℕ → Bool
any_of env k [] = false
any_of env k (x ∷ xs) = (env.vocation_id x == k || env.vocation_id x == k + 4) || any_of env k xs

abbrev pub one_if : Bool → ℕ
one_if b = if b then 1 else 0

-- How many of the four vocations the players have between them.
abbrev pub vocations : Env → List ℕ → ℕ
vocations env xs =
    one_if (any_of env 4 xs)
    + one_if (any_of env 2 xs)
    + one_if (any_of env 1 xs)
    + one_if (any_of env 3 xs)

mark_lem :
    (v : ℕ) (f : Flags)
    → ((mark v f).sorc ≡ (if v == 1 || v == 5 then 1 else f.sorc))
      × ((mark v f).druid ≡ (if v == 2 || v == 6 then 1 else f.druid))
      × ((mark v f).paladin ≡ (if v == 3 || v == 7 then 1 else f.paladin))
      × ((mark v f).knight ≡ (if v == 4 || v == 8 then 1 else f.knight))
unfolding mark
mark_lem v f = ground arith

mark_all_lem :
    (env : Env) (xs : List ℕ) (f : Flags)
    → ((mark_all env xs f).sorc ≡ (if any_of env 1 xs then 1 else f.sorc))
      × ((mark_all env xs f).druid ≡ (if any_of env 2 xs then 1 else f.druid))
      × ((mark_all env xs f).paladin ≡ (if any_of env 3 xs then 1 else f.paladin))
      × ((mark_all env xs f).knight ≡ (if any_of env 4 xs then 1 else f.knight))
unfolding mark_all
mark_all_lem env [] f = (refl, refl, refl, refl)
mark_all_lem env (x ∷ xs) f =
    let v = env.vocation_id x in
    let ih = mark_all_lem env xs (mark v f) in
    let l = mark_lem v f in
    (
      ground (arith, ih.0, l.0),
      ground (arith, ih.1, l.1),
      ground (arith, ih.2, l.2),
      ground (arith, ih.3, l.3),
    )

-- While shared experience is active, `updateExperienceMult` sets the multiplier by how many of the
-- four vocations the leader and the members have between them, promoted or not: none leaves it as it
-- was. While it is not active the multiplier becomes 1.
pub update_experience_mult_lem :
    (env : Env) (p : Party)
    → (update_experience_mult env p).exp_multiplier ≡ (
        if p.shared_exp_active
        then multiplier_of (vocations env (p.leader ∷ p.member_list)) p.exp_multiplier
        else Multiplier.one)
unfolding update_experience_mult mark_all no_flags
update_experience_mult_lem env p =
    let f = mark_all_lem env (p.leader ∷ p.member_list) no_flags in
    elim (Bool-cases p.shared_exp_active) [ inl e ↦ rw (e, f.0, f.1, f.2, f.3) | inr e ↦ rw e ]

find_points-set_points :
    (k j : ℕ) (b : CountBlock) (m : List (ℕ × CountBlock))
    → find_points k (set_points j b m) ≡ (if k == j then some b else find_points k m)
unfolding find_points set_points
find_points-set_points k j b [] = refl
find_points-set_points k j b ((i, c) ∷ m) = ground (arith, find_points-set_points k j b m)

find_points-erase_points :
    (k j : ℕ) (m : List (ℕ × CountBlock))
    → find_points k (erase_points j m) ≡ (if k == j then none else find_points k m)
unfolding find_points erase_points
find_points-erase_points k j [] = ground arith
find_points-erase_points k j ((i, c) ∷ m) = ground (arith, find_points-erase_points k j m)

cleared :
    (env : Env) (p : Party) (x y : ℕ) (o : Option CountBlock)
    → find_points x p.point_map ≡ o
    → find_points y (clear_found env p x o).point_map
      ≡ (if y == x then none else find_points y p.point_map)
unfolding clear_found
cleared env p x y none e = ground (arith, ==_iff y x)
cleared env p x y (some b) e =
    rw
      (update_shared_experience-SameShares env
        (record p { point_map = erase_points x p.point_map })).point_map
      (find_points-erase_points y x p.point_map)

-- A healing and a damage dealt are noted for the player alone, at the present time: the total of
-- the kind goes up by the points modulo 2 ^ 32, or begins with them, and the other total stays.
-- `clearPlayerPoints` forgets the player's entry and no other.
pub points_noted :
    (env : Env) (p : Party) (x y n : ℕ)
    → (find_points y (add_player_healed_member env p x n).point_map ≡ (
        if y == x
        then some (healed_block env n (find_points x p.point_map))
        else find_points y p.point_map))
      × (find_points y (add_player_damage_monster env p x n).point_map ≡ (
          if y == x
          then some (damage_block env n (find_points x p.point_map))
          else find_points y p.point_map))
      × (find_points y (clear_player_points env p x).point_map
          ≡ (if y == x then none else find_points y p.point_map))
unfolding add_player_healed_member add_player_damage_monster clear_player_points
points_noted env p x y n =
    let o = find_points x p.point_map in
    let healed = set_points x (healed_block env n o) p.point_map in
    let hurt = set_points x (damage_block env n o) p.point_map in
    (
      rw (update_shared_experience-SameShares env (record p { point_map = healed })).point_map
          (find_points-set_points y x (healed_block env n o) p.point_map),
      rw (update_shared_experience-SameShares env (record p { point_map = hurt })).point_map
          (find_points-set_points y x (damage_block env n o) p.point_map),
      cleared env p x y o refl,
    )
