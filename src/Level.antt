-- ===== src/Level.antt =====
-- The level and the skills of a player, in src/player.h and src/player.cpp. Numbers of 64 and 32 bits
-- wrap. What a level adds to health, mana and capacity, the vocation's, is not negative; the capacity,
-- a double in the source, is exact. Events, messages and the speed of the player are not modelled.
pub mod Curve
pub mod Experience
pub mod Removal
pub mod Advance
mod Tests
use otxserver.Common.{
  ℕ, zero, suc, ◌+◌, ◌-◌, ◌*◌, ◌/◌, ◌%◌, ◌^◌, ◌≤◌, ◌<◌, min, max, ◌≡◌, refl, sym, ap, ◌∙◌, ◌≢◌, ◌↔◌,
  ◌⊎◌, inl, inr, Bool, true, false, not, ◌&&◌, ◌||◌, Option, none, some, List, [], ◌∷◌, ◌++◌, map,
  arith, ltb, leb, ◌==◌, if◌then◌else◌, ltb→lt, lt→ltb, leb→le, ==_iff, ==_refl, Bool-cases,
  Option-cases, dist, if_intro, length, get_elem?, get_or, set, take, drop, length-append,
  take-append, drop-append, All, All-append,
}

-- uint64_t
abbrev pub u64 : ℕ → ℕ
u64 n = n % 2 ^ 64

-- `Player::getExpForLevel`: `lv - 6ULL` and `... - 12ULL` wrap.
unfoldable pub get_exp_for_level : ℕ → ℕ
get_exp_for_level lv =
    u64 (u64 (u64 (u64 (u64 (lv + 2 ^ 64 - 6) * lv) + 17) * lv + 2 ^ 64 - 12) / 6 * 100)

-- `Player::getPercentLevel`
unfoldable pub get_percent_level : ℕ → ℕ → ℕ
get_percent_level count next_level_count =
    if next_level_count == 0 then 0 else u64 (count * 100) / next_level_count % 2 ^ 16

-- What a vocation adds with each level: `gain[GAIN_HEALTH]`, `gain[GAIN_MANA]` and `capGain`.
pub record Gain : Type 0 where
  pub health : ℕ
  pub mana : ℕ
  pub cap : ℕ

pub record Player : Type 0 where
  pub level : ℕ
  pub experience : ℕ
  pub level_percent : ℕ
  pub health : ℕ
  pub health_max : ℕ
  pub mana : ℕ
  pub mana_max : ℕ
  pub capacity : ℕ

abbrev pub u32 : ℕ → ℕ
u32 n = n % 2 ^ 32

-- The body of the loop of `addExperience`, without its last test.
unfoldable pub level_up : Gain → Player → Player
level_up g p = record p {
  level = u32 (p.level + 1);
  health_max = u32 (p.health_max + g.health);
  health = u32 (p.health + g.health);
  mana_max = u32 (p.mana_max + g.mana);
  mana = u32 (p.mana + g.mana);
  capacity = p.capacity + g.cap;
}

-- `getExpForLevel(m_level) > nextLevelExp`: the experience of the next level has wrapped.
abbrev pub is_max_level : Player → Bool
is_max_level p = ltb (get_exp_for_level (u32 (p.level + 1))) (get_exp_for_level p.level)

-- The loop of `addExperience`, on fuel.
unfoldable pub climb : ℕ → Gain → Player → Option Player
climb zero g p = none
climb (suc fuel) g p =
    let q = level_up g p in
    let rest = climb fuel g q in
    if ltb p.experience (get_exp_for_level (u32 (p.level + 1)))
    then some p
    else (if is_max_level q then some q else rest)

-- `m_levelPercent` at the end of `addExperience` and of `removeExperience`.
unfoldable pub update_percent : Player → Player
update_percent p =
    let curr = get_exp_for_level p.level in
    let next = get_exp_for_level (u32 (p.level + 1)) in
    record p {
      level_percent =
          if ltb curr next
          then get_percent_level (u64 (p.experience + 2 ^ 64 - curr)) (next - curr)
          else 0;
    }

abbrev pub map_player : (Player → Player) → Option Player → Option Player
map_player f none = none
map_player f (some p) = some (f p)

-- `addExperience`
unfoldable pub add_experience : ℕ → Gain → ℕ → Player → Option Player
add_experience fuel g exp p =
    let climbed = climb fuel g (record p { experience = u64 (p.experience + exp) }) in
    if is_max_level p
    then some (record p { level_percent = 0 })
    else map_player update_percent climbed

-- The body of the loop of `removeExperience`. The maxima, int32_t, and the gains are below 2 ^ 31, so that
-- the differences, unsigned in the source, are negative as an int32_t where they are below 0 here.
unfoldable pub level_down : Gain → Player → Player
level_down g p = record p {
  level = p.level - 1;
  health_max = p.health_max - g.health;
  mana_max = p.mana_max - g.mana;
  capacity = p.capacity - g.cap;
}

-- The loop of `removeExperience`, by the levels above 1.
unfoldable pub drop_levels : ℕ → Gain → Player → Player
drop_levels zero g p = p
drop_levels (suc n) g p =
    let rest = drop_levels n g (level_down g p) in
    if ltb 1 p.level && ltb p.experience (get_exp_for_level p.level) then rest else p

-- `removeExperience`
unfoldable pub remove_experience : Gain → ℕ → Player → Player
remove_experience g exp p =
    update_percent
      (drop_levels p.level g (record p { experience = p.experience - min exp p.experience }))
