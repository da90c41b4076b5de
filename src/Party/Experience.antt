-- ===== src/Party/Experience.antt =====
-- Shared experience in src/party.cpp: the multiplier, who may share, and the points of the members.
use otxserver.Common.{
  ℕ, ◌+◌, ◌-◌, ◌%◌, ◌^◌, Bool, true, false, not, ◌&&◌, ◌||◌, Option, none, some, List, [], ◌∷◌, ltb,
  leb, ◌==◌, if◌then◌else◌,
}
use otxserver.Position.{are_in_range}
use otxserver.Party.{Env, Party, Multiplier, CountBlock, is_empty}

-- The four flags of `updateExperienceMult`.
pub record Flags : Type 0 where
  pub sorc : ℕ
  pub druid : ℕ
  pub paladin : ℕ
  pub knight : ℕ

unfoldable pub mark : ℕ → Flags → Flags
mark v f =
    if v == 1 || v == 5
    then record f { sorc = 1 }
    else if v == 2 || v == 6
    then record f { druid = 1 }
    else if v == 3 || v == 7
    then record f { paladin = 1 }
    else if v == 4 || v == 8
    then record f { knight = 1 }
    else f

unfoldable pub mark_all : Env → List ℕ → Flags → Flags
mark_all env [] f = f
mark_all env (x ∷ xs) f = mark_all env xs (mark (env.vocation_id x) f)

unfoldable pub no_flags : Flags
no_flags = record { sorc = 0; druid = 0; paladin = 0; knight = 0 }

-- The chain of tests on `soma`; no test holds of a number out of 1 to 4.
unfoldable pub multiplier_of : ℕ → Multiplier → Multiplier
multiplier_of soma old =
    if soma == 1
    then Multiplier.one
    else if soma == 2
    then Multiplier.two_vocation
    else if soma == 3
    then Multiplier.three_vocation
    else if soma == 4
    then Multiplier.four_vocation
    else old

unfoldable pub update_experience_mult : Env → Party → Party
unfolding no_flags
update_experience_mult env p =
    let f = mark_all env p.member_list (mark (env.vocation_id p.leader) no_flags) in
    if not p.shared_exp_active then record p { exp_multiplier = Multiplier.one } else record p {
      exp_multiplier = multiplier_of (f.knight + f.druid + f.sorc + f.paladin) p.exp_multiplier;
    }

-- The loop for the highest level, from the level so far.
unfoldable pub highest_from : Env → ℕ → List ℕ → ℕ
highest_from env h [] = h
highest_from env h (x ∷ xs) = highest_from env (if ltb h (env.level x) then env.level x else h) xs

unfoldable pub highest_level : Env → Party → ℕ
highest_level env p = highest_from env (env.level p.leader) p.member_list

-- `pointMap.find(id)`, `pointMap.erase(it)` and the writing of an entry.
unfoldable pub find_points : ℕ → List (ℕ × CountBlock) → Option CountBlock
find_points k [] = none
find_points k ((j, b) ∷ m) = if k == j then some b else find_points k m

unfoldable pub erase_points : ℕ → List (ℕ × CountBlock) → List (ℕ × CountBlock)
erase_points k [] = []
erase_points k ((j, b) ∷ m) = if k == j then erase_points k m else (j, b) ∷ erase_points k m

unfoldable pub set_points : ℕ → CountBlock → List (ℕ × CountBlock) → List (ℕ × CountBlock)
set_points k c [] = (k, c) ∷ []
set_points k c ((j, b) ∷ m) = if k == j then (k, c) ∷ m else (j, b) ∷ set_points k c m

-- `it != pointMap.end() && (mstime() - it->second.ticks) <= EXPERIENCE_SHARE_ACTIVITY`
unfoldable pub is_active : Env → Option CountBlock → Bool
is_active env none = false
is_active env (some b) = leb (env.now - b.ticks) env.share_activity

unfoldable pub can_use_shared_experience : Env → Party → ℕ → ℕ → Bool
unfolding is_active
can_use_shared_experience env p player highest =
    let h = if highest == 0 then highest_level env p else highest in
    if env.removed player || is_empty p.member_list
    then false
    else if env.in_protection_zone player
    then false
    else if ltb (env.level player) (env.min_level h)
        || not (are_in_range env.radius (env.position p.leader) (env.position player))
    then false
    else is_active env (find_points player p.point_map)

-- The loop of `canEnableSharedExperience`.
unfoldable pub all_can_use : Env → Party → ℕ → List ℕ → Bool
all_can_use env p h [] = true
all_can_use env p h (x ∷ xs) =
    if not (can_use_shared_experience env p x h) then false else all_can_use env p h xs

unfoldable pub can_enable_shared_experience : Env → Party → Bool
can_enable_shared_experience env p =
    let h = highest_level env p in
    if is_empty p.member_list
    then false
    else if not (all_can_use env p h p.member_list)
    then false
    else can_use_shared_experience env p p.leader h

unfoldable pub update_shared_experience : Env → Party → Party
update_shared_experience env p =
    let result = can_enable_shared_experience env p in
    if not p.shared_exp_active
    then p
    else if (result && p.shared_exp_enabled) || (not result && not p.shared_exp_enabled)
    then p
    else (let p' = if env.party_vocation_mult then update_experience_mult env p else p in
        record (update_experience_mult env p') { shared_exp_enabled = result })

unfoldable pub set_shared_experience : Env → Party → ℕ → Bool → Bool × Party
set_shared_experience env p player active =
    if env.removed player || not (player == p.leader)
    then (false, p)
    else if (p.shared_exp_active && active) || (not p.shared_exp_active && not active)
    then (true, p)
    else (let p' : Party = record p { shared_exp_active = active } in
        (
          true,
          if active
              then record p' { shared_exp_enabled = can_enable_shared_experience env p' }
              else p',
        ))

-- The entry after `totalHeal += points` or `totalDamage += points`, or a new one.
unfoldable pub healed_block : Env → ℕ → Option CountBlock → CountBlock
healed_block env points none = record { ticks = env.now; total_heal = points; total_damage = 0 }
healed_block env points (some b) = record b {
  total_heal = (b.total_heal + points) % 2 ^ 32;
  ticks = env.now;
}

unfoldable pub damage_block : Env → ℕ → Option CountBlock → CountBlock
damage_block env points none = record { ticks = env.now; total_heal = 0; total_damage = points }
damage_block env points (some b) = record b {
  total_damage = (b.total_damage + points) % 2 ^ 32;
  ticks = env.now;
}

unfoldable pub add_player_healed_member : Env → Party → ℕ → ℕ → Party
add_player_healed_member env p player points =
    let b = healed_block env points (find_points player p.point_map) in
    update_shared_experience env (record p { point_map = set_points player b p.point_map })

unfoldable pub add_player_damage_monster : Env → Party → ℕ → ℕ → Party
add_player_damage_monster env p player points =
    let b = damage_block env points (find_points player p.point_map) in
    update_shared_experience env (record p { point_map = set_points player b p.point_map })

-- `clearPlayerPoints`, by what the search finds.
unfoldable pub clear_found : Env → Party → ℕ → Option CountBlock → Party
clear_found env p player none = p
clear_found env p player (some b) =
    update_shared_experience env (record p { point_map = erase_points player p.point_map })

unfoldable pub clear_player_points : Env → Party → ℕ → Party
clear_player_points env p player = clear_found env p player (find_points player p.point_map)
