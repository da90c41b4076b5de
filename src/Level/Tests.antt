-- ===== src/Level/Tests.antt =====
-- The theorems on levels and skills at players of level 1 and 2, and at a skill of level 10.
use otxserver.Common.{
  ℕ, zero, suc, leb, if◌then◌else◌, ◌+◌, ◌-◌, ◌*◌, ◌%◌, ◌^◌, ◌≤◌, ◌<◌, ◌≡◌, refl, some, arith,
}
use otxserver.Level.{Gain, Player, add_experience, remove_experience}
use otxserver.Level.Curve.{cap, hundreds, tri, hundreds-le}
use otxserver.Level.Experience.{HasLevel, add_experience-Climbed}
use otxserver.Level.Removal.{remove_experience-add_experience}
use otxserver.Level.Advance.{Skill}

abbrev knight : Gain
knight = record { health = 15; mana = 5; cap = 25 }

abbrev novice : Player
novice = record {
  level = 1;
  experience = 0;
  level_percent = 0;
  health = 150;
  health_max = 150;
  mana = 0;
  mana_max = 0;
  capacity = 400;
}

novice-HasLevel : HasLevel novice
unfolding hundreds tri
novice-HasLevel = (omega arith, omega arith, omega arith, omega arith)

hundreds_four : hundreds 4 ≡ 4
unfolding hundreds tri
hundreds_four = refl

below_cap : 0 + 250 < 100 * hundreds cap
below_cap =
    let four : hundreds 4 ≡ 4 = hundreds_four in
    omega (arith, hundreds-le 4 (cap - 4) (omega arith), four)

add_experience-Climbed_example :
    (q : Player) × (add_experience cap knight 250 novice ≡ some q)
    × (q.experience ≡ 0 + 250)
    × HasLevel q
    × (1 ≤ q.level)
    × (q.health_max % 2 ^ 32 ≡ (150 + (q.level - 1) * 15) % 2 ^ 32)
    × (q.mana_max % 2 ^ 32 ≡ (0 + (q.level - 1) * 5) % 2 ^ 32)
add_experience-Climbed_example =
    add_experience-Climbed cap knight 250 novice novice-HasLevel below_cap (omega arith)

remove_experience-add_experience_example :
    (q : Player) × (add_experience cap knight 250 novice ≡ some q)
    × ((remove_experience knight 250 q).experience ≡ 0)
    × ((remove_experience knight 250 q).level ≡ 1)
remove_experience-add_experience_example =
    remove_experience-add_experience cap knight 250 novice novice-HasLevel below_cap (omega arith)

abbrev second : Player
second = record novice { level = 2; experience = 150; health_max = 165; mana_max = 5 }

second-HasLevel : HasLevel second
unfolding hundreds tri
second-HasLevel = (omega arith, omega arith, omega arith, omega arith)

abbrev sword : Skill
sword = record { tries = 20; level = 10; percent = 40 }

-- 50 tries for level 11, and twice as many for each level more, as a number of 64 bits.
abbrev doubled : ℕ → ℕ
doubled zero = 50
doubled (suc n) = 2 * doubled n

abbrev tries_for : ℕ → ℕ
tries_for l = if leb l 10 then 0 else doubled (l - 11) % 2 ^ 64
