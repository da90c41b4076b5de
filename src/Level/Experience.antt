-- ===== src/Level/Experience.antt =====
-- `Player::addExperience` of src/player.cpp: the level that it leaves.
use otxserver.Common.{
  ℕ, zero, suc, ◌+◌, ◌-◌, ◌*◌, ◌%◌, ◌^◌, ◌≤◌, ◌<◌, ◌≡◌, refl, ap, ◌∙◌, inl, inr, false, some, arith,
  ltb, ◌==◌, ltb→lt, ==_iff, Bool-cases,
}
use otxserver.Level.{
  Player, Gain, get_exp_for_level, u32, level_up, is_max_level, climb, update_percent, map_player,
  add_experience,
}
use otxserver.Level.Curve.{cap, hundreds, get_exp_for_level_lem, hundreds_grows, cap_fits}

-- The level is the one of the experience, and below level 1000000.
abbrev pub HasLevel : Player → Type 0
HasLevel p =
    (1 ≤ p.level)
    × (p.level < cap)
    × (100 * hundreds p.level ≤ p.experience)
    × (p.experience < 100 * hundreds (p.level + 1))

-- What a player has after a climb: the same experience, its level, and the health of its levels.
abbrev pub Climbed : Gain → Player → Player → Type 0
Climbed g p q =
    (q.experience ≡ p.experience)
    × HasLevel q
    × (p.level ≤ q.level)
    × (q.health_max % 2 ^ 32 ≡ (p.health_max + (q.level - p.level) * g.health) % 2 ^ 32)
    × (q.mana_max % 2 ^ 32 ≡ (p.mana_max + (q.level - p.level) * g.mana) % 2 ^ 32)

exp_at : (lv : ℕ) → 1 ≤ lv → lv ≤ cap → get_exp_for_level (u32 lv) ≡ 100 * hundreds lv
exp_at lv h k = let e : lv % 2 ^ 32 ≡ lv = omega arith in rw e (get_exp_for_level_lem lv h k)

not_max : (p : Player) → 1 ≤ p.level → p.level < cap → is_max_level p ≡ false
not_max p h k =
    rw
      (
        exp_at (p.level + 1) (omega arith) (omega arith),
        get_exp_for_level_lem p.level h (omega arith),
      )
      (ground (arith, hundreds_grows p.level h))

level_up_level : (g : Gain) (p : Player) → p.level < cap → (level_up g p).level ≡ p.level + 1
unfolding level_up
level_up_level g p h = omega arith

stays : (l g m : ℕ) → m % 2 ^ 32 ≡ (m + (l - l) * g) % 2 ^ 32
stays l g m = let e : l - l ≡ 0 = omega arith in rw e (omega arith)

-- The gain of one level and that of the levels above it.
gains :
    (l k g m n : ℕ)
    → l + 1 ≤ k
    → n % 2 ^ 32 ≡ ((m + g) % 2 ^ 32 + (k - (l + 1)) * g) % 2 ^ 32
    → n % 2 ^ 32 ≡ (m + (k - l) * g) % 2 ^ 32
gains l k g m n h e =
    let d = k - (l + 1) in let s : k - l ≡ d + 1 = omega arith in rw s (omega (arith, e))

under_cap : (l x : ℕ) → l < cap → 100 * hundreds (l + 1) ≤ x → x < 100 * hundreds cap → l + 1 < cap
under_cap l x h lo hi = elim (Bool-cases (l + 1 == cap)) [
  | inl e ↦ absurd (let f = (==_iff (l + 1) cap).0 e in let g = rw f at lo in omega (arith, g, hi))
  | inr e ↦ ground arith
]

climb_lem :
    (fuel : ℕ) (g : Gain) (p : Player)
    → 1 ≤ p.level
    → p.level < cap
    → cap ≤ p.level + fuel
    → 100 * hundreds p.level ≤ p.experience
    → p.experience < 100 * hundreds cap
    → (q : Player) × (climb fuel g p ≡ some q) × Climbed g p q
unfolding climb level_up
climb_lem zero g p h k f lo hi = absurd (omega arith)
climb_lem (suc fuel) g p h k f lo hi =
    let next = exp_at (p.level + 1) (omega arith) (omega arith) in
    elim (Bool-cases (ltb p.experience (100 * hundreds (p.level + 1)))) [
      | inl e ↦ (
        p,
        rw (next, e) refl,
        (
          refl,
          (h, k, lo, ltb→lt p.experience (100 * hundreds (p.level + 1)) e),
          omega arith,
          stays p.level g.health p.health_max,
          stays p.level g.mana p.mana_max,
        ),
      )
      | inr e ↦
          let l = level_up_level g p k in
          let below : p.level + 1 < cap = under_cap p.level p.experience k (ground arith) hi in
          let (q, run, (x, has, le, health, mana)) =
            climb_lem fuel g (level_up g p) (omega (arith, l)) (omega (arith, l, below))
              (omega (arith, l, f)) (rw l (ground arith)) hi in
          let high = not_max (level_up g p) (omega (arith, l)) (omega (arith, l, below)) in
          (
            q,
            rw (high, next, e) run,
            (
              x,
              has,
              omega (arith, l, le),
              gains p.level q.level g.health p.health_max q.health_max (omega (arith, l, le))
                  (rw l at health),
              gains p.level q.level g.mana p.mana_max q.mana_max (omega (arith, l, le))
                  (rw l at mana),
            ),
          )
    ]

update_percent-experience :
    (p : Player)
    → ((update_percent p).experience ≡ p.experience)
      × ((update_percent p).level ≡ p.level)
      × ((update_percent p).health_max ≡ p.health_max)
      × ((update_percent p).mana_max ≡ p.mana_max)
unfolding update_percent
update_percent-experience p = (refl, refl, refl, refl)

-- For a player whose level is that of its experience, and an amount that keeps the experience below
-- that of level 1000000: with fuel for the levels below, `addExperience` ends, adds exactly the
-- amount, leaves the level of the new experience, never a lower one, and for each level gained adds
-- the gain of the vocation once to the maximum of health and once to that of mana, as 32-bit numbers.
pub add_experience-Climbed :
    (fuel : ℕ) (g : Gain) (exp : ℕ) (p : Player)
    → HasLevel p
    → p.experience + exp < 100 * hundreds cap
    → cap ≤ p.level + fuel
    → (q : Player) × (add_experience fuel g exp p ≡ some q)
      × (q.experience ≡ p.experience + exp)
      × HasLevel q
      × (p.level ≤ q.level)
      × (q.health_max % 2 ^ 32 ≡ (p.health_max + (q.level - p.level) * g.health) % 2 ^ 32)
      × (q.mana_max % 2 ^ 32 ≡ (p.mana_max + (q.level - p.level) * g.mana) % 2 ^ 32)
unfolding add_experience update_percent
add_experience-Climbed fuel g exp p (h, k, lo, hi) m f =
    let fits : (p.experience + exp) % 2 ^ 64 ≡ p.experience + exp = omega (arith, m, cap_fits) in
    let p1 : Player = record p { experience = p.experience + exp } in
    let e : add_experience fuel g exp p ≡ map_player update_percent (climb fuel g p1) =
      rw (not_max p h k, fits) in
    let (q, run, (x, has, le, health, mana)) = climb_lem fuel g p1 h k f (omega (arith, lo)) m in
    (update_percent q, e ∙ ap (map_player update_percent) run, x, has, le, health, mana)
