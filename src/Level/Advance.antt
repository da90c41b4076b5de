-- ===== src/Level/Advance.antt =====
-- `Player::addSkillAdvance` and `addManaSpent` of src/player.cpp. The tries that a level needs, which the
-- vocation computes by a power of a double, are a function of the level, and so is the rate.
use otxserver.Common.{
  ℕ, zero, suc, ◌+◌, ◌-◌, ◌%◌, ◌^◌, ◌≤◌, ◌<◌, ◌≡◌, Bool, ◌&&◌, ◌||◌, Option, none, some, ltb, ◌==◌,
  if◌then◌else◌,
}
use otxserver.Level.{get_percent_level, u64}

-- `Skill`; of the magic level `m_manaSpent`, `m_magLevel` and `m_magLevelPercent`.
pub record Skill : Type 0 where
  pub tries : ℕ
  pub level : ℕ
  pub percent : ℕ

-- The loop, on fuel; `width` bounds the level. It ends with the skill, the count that is left and the
-- tries of the next level.
unfoldable pub advance : ℕ → ℕ → (ℕ → ℕ) → Skill → ℕ → ℕ → Option (Skill × ℕ × ℕ)
advance zero width req s count next = none
advance (suc fuel) width req s count next =
    let count' = u64 (count + 2 ^ 64 - u64 (next + 2 ^ 64 - s.tries)) in
    let s' : Skill = record { tries = 0; level = (s.level + 1) % width; percent = 0 } in
    let next' = req (s'.level + 1) in
    let rest = advance fuel width req s' count' next' in
    if ltb (u64 (s.tries + count)) next
    then some (s, count, next)
    else (if ltb next' next then some (s', 0, next') else rest)

-- After the loop: the rest of the count, and the percentage.
abbrev pub finish : Option (Skill × ℕ × ℕ) → Option Skill
finish none = none
finish (some (s, count, next)) = some (record s {
  tries = u64 (s.tries + count);
  percent = get_percent_level (u64 (s.tries + count)) next;
})

-- `addSkillAdvance`: the level is a uint16_t.
unfoldable pub add_skill_advance : ℕ → (ℕ → ℕ) → (ℕ → ℕ) → ℕ → Bool → Skill → Option Skill
add_skill_advance fuel req rate count use_multiplier s =
    if count == 0 || ltb (req (s.level + 1)) (req s.level)
    then some s
    else finish (
        advance fuel (2 ^ 16) req s (if use_multiplier then rate count else count)
          (req (s.level + 1)))

-- `addManaSpent`: the magic level is a uint32_t, and level 0 is never the highest.
unfoldable pub add_mana_spent : ℕ → (ℕ → ℕ) → (ℕ → ℕ) → ℕ → Bool → Skill → Option Skill
add_mana_spent fuel req rate amount use_multiplier s =
    if amount == 0 || (ltb 0 s.level && ltb (req (s.level + 1)) (req s.level))
    then some s
    else finish (
        advance fuel (2 ^ 32) req s (if use_multiplier then rate amount else amount)
          (req (s.level + 1)))

-- The tries of the `n` levels above a level.
unfoldable pub sum_req : (ℕ → ℕ) → ℕ → ℕ → ℕ
sum_req req l zero = 0
sum_req req l (suc n) = req (l + 1) + sum_req req (l + 1) n

-- Up to a level, none needs less than the one before.
abbrev pub GrowsTo : ℕ → (ℕ → ℕ) → Type 0
GrowsTo top req = (l : ℕ) → l < top → req l ≤ req (l + 1)

-- Numbers of 64 bits.
abbrev pub Bounded : (ℕ → ℕ) → Type 0
Bounded req = (l : ℕ) → req l < 2 ^ 64

-- What the count of tries comes to: some levels, and tries that are too few for one more.
abbrev pub Spent : (ℕ → ℕ) → Skill → ℕ → Skill → Type 0
Spent req s count q =
    (n : ℕ) × (q.level ≡ s.level + n)
    × (sum_req req s.level n + q.tries ≡ s.tries + count)
    × (q.tries < req (q.level + 1))
