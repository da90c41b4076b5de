-- ===== src/Level/Removal.antt =====
-- `Player::removeExperience` of src/player.cpp: the level that it leaves.
use otxserver.Common.{
  ℕ, zero, suc, ◌+◌, ◌-◌, ◌*◌, ◌≤◌, ◌<◌, min, ◌≡◌, refl, sym, ◌∙◌, inl, inr, false, ◌&&◌, some,
  arith, ltb, ltb→lt, Bool-cases,
}
use otxserver.Level.{
  Player, Gain, get_exp_for_level, update_percent, add_experience, level_down, drop_levels,
  remove_experience,
}
use otxserver.Level.Curve.{cap, hundreds, get_exp_for_level_lem, hundreds-le, hundreds_one}
use otxserver.Level.Experience.{HasLevel, add_experience-Climbed}

-- What a player has after a fall: the same experience, its level, and the health of its levels.
abbrev pub Dropped : Gain → Player → Player → Type 0
Dropped g p q =
    (q.experience ≡ p.experience)
    × HasLevel q
    × (q.level ≤ p.level)
    × (q.health_max ≡ p.health_max - (p.level - q.level) * g.health)
    × (q.mana_max ≡ p.mana_max - (p.level - q.level) * g.mana)

loses : (l k g m n : ℕ) → k + 1 ≤ l → n ≡ m - g - (l - 1 - k) * g → n ≡ m - (l - k) * g
loses l k g m n h e =
    let d = l - 1 - k in let s : l - k ≡ d + 1 = omega arith in rw s (omega (arith, e))

none_lost : (l g m : ℕ) → m ≡ m - (l - l) * g
none_lost l g m = let e : l - l ≡ 0 = omega arith in rw e (omega arith)

reaches : (l x : ℕ) → 1 ≤ l → (ltb 1 l && ltb x (100 * hundreds l)) ≡ false → 100 * hundreds l ≤ x
reaches l x h f = elim (Bool-cases (ltb 1 l)) [
  | inl e ↦ ground arith
  | inr e ↦ let o : l ≡ 1 = ground arith in rw (o, hundreds_one) (omega arith)
]

drop_levels_lem :
    (n : ℕ) (g : Gain) (p : Player)
    → 1 ≤ p.level
    → p.level < cap
    → p.level ≤ n
    → p.experience < 100 * hundreds (p.level + 1)
    → Dropped g p (drop_levels n g p)
unfolding drop_levels level_down
drop_levels_lem zero g p h k n hi = absurd (omega arith)
drop_levels_lem (suc n) g p h k m hi =
    let e = get_exp_for_level_lem p.level h (omega arith) in
    elim (Bool-cases (ltb 1 p.level && ltb p.experience (get_exp_for_level p.level))) [
      | inl f ↦
          let back : p.level - 1 + 1 ≡ p.level = omega arith in
          let two : 1 < p.level = ground arith in
          let (x, has, le, health, mana) =
            drop_levels_lem n g (level_down g p) (omega (arith, two)) (omega arith) (omega arith)
              (rw (back, ← e) (ground arith)) in
          rw f (
            x,
            has,
            omega (arith, le),
            loses p.level (drop_levels n g (level_down g p)).level g.health p.health_max _
                (omega (arith, le, two)) health,
            loses p.level (drop_levels n g (level_down g p)).level g.mana p.mana_max _
                (omega (arith, le, two)) mana,
          )
      | inr f ↦ rw f (
        refl,
        (h, k, reaches p.level p.experience h (rw e at f), hi),
        omega arith,
        none_lost p.level g.health p.health_max,
        none_lost p.level g.mana p.mana_max,
      )
    ]

-- For a player whose level is that of its experience, `removeExperience` takes the amount, or all that
-- there is, leaves the level of the new experience, never a higher one, and for each level lost takes
-- the gain of the vocation once from the maximum of health and once from that of mana, down to 0.
pub remove_experience-Dropped :
    (g : Gain) (exp : ℕ) (p : Player)
    → HasLevel p
    → ((remove_experience g exp p).experience ≡ p.experience - exp)
      × HasLevel (remove_experience g exp p)
      × ((remove_experience g exp p).level ≤ p.level)
      × ((remove_experience g exp p).health_max
          ≡ p.health_max - (p.level - (remove_experience g exp p).level) * g.health)
      × ((remove_experience g exp p).mana_max
          ≡ p.mana_max - (p.level - (remove_experience g exp p).level) * g.mana)
unfolding remove_experience update_percent
remove_experience-Dropped g exp p (h, k, lo, hi) =
    let p1 : Player = record p { experience = p.experience - min exp p.experience } in
    let (x, has, le, health, mana) =
      drop_levels_lem p.level g p1 h k (omega arith) (omega (arith, hi)) in
    (x ∙ omega arith, has, le, health, mana)

not_lower : (l k x : ℕ) → 1 ≤ l → x < 100 * hundreds (l + 1) → 100 * hundreds k ≤ x → k ≤ l
not_lower l k x h lo hi = elim (Bool-cases (ltb l k)) [
  | inl e ↦
      let s : k ≡ l + 1 + (k - (l + 1)) = omega (arith, ltb→lt l k e) in
      absurd (omega (arith, hundreds-le (l + 1) (k - (l + 1)) (omega arith), rw s at hi))
  | inr e ↦ ground arith
]

same_level :
    (p q : Player) → HasLevel p → HasLevel q → p.experience ≡ q.experience → p.level ≡ q.level
same_level p q h k e = omega (
  arith,
  not_lower p.level q.level p.experience h.0 h.3 (rw (sym e) at k.2),
  not_lower q.level p.level q.experience k.0 k.3 (rw e at h.2),
)

-- Under the conditions of `addExperience` above, experience that is added and then taken again by
-- `removeExperience` leaves the level and the experience as they were.
pub remove_experience-add_experience :
    (fuel : ℕ) (g : Gain) (exp : ℕ) (p : Player)
    → HasLevel p
    → p.experience + exp < 100 * hundreds cap
    → cap ≤ p.level + fuel
    → (q : Player) × (add_experience fuel g exp p ≡ some q)
      × ((remove_experience g exp q).experience ≡ p.experience)
      × ((remove_experience g exp q).level ≡ p.level)
remove_experience-add_experience fuel g exp p h m f =
    let a = add_experience-Climbed fuel g exp p h m f in
    let b = remove_experience-Dropped g exp a.0 a.3 in
    let e : (remove_experience g exp a.0).experience ≡ p.experience = omega (arith, a.2, b.0) in
    (a.0, a.1, e, same_level (remove_experience g exp a.0) p b.1 h e)
