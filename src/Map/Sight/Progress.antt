-- ===== src/Map/Sight/Progress.antt =====
-- Each step of a ray of src/map.cpp and its distance to where it ends.
use otxserver.Common.{
  ℕ, ◌+◌, ◌-◌, ◌^◌, ◌<◌, ◌≡◌, refl, ◌⊎◌, inl, inr, Bool, true, false, not, ◌&&◌, ◌||◌, arith, ltb,
  ◌==◌, if◌then◌else◌, ltb→lt, Bool-cases, dist, if_intro,
}
use otxserver.Map.Sight.{sign, ahead, move, Ray, plus, minus, off_line, next}
use otxserver.Map.Sight.Line.{Between, Small, Near, off_line-exact}

abbrev pub left : Ray → ℕ × ℕ → ℕ
left r p = dist p.0 r.dx + dist p.1 r.dy

-- One coordinate moves towards its end.
abbrev Moves : ℕ → ℕ → ℕ → ℕ → Type 0
Moves s d x x' = Between s d x' × ((x' ≡ x) ⊎ (dist x' d + 1 ≡ dist x d))

move-Moves :
    (s d x : ℕ)
    → s < 2 ^ 16
    → d < 2 ^ 16
    → Between s d x
    → (x == d) ≡ false
    → Moves s d x (move (sign s d) x) × (dist (move (sign s d) x) d + 1 ≡ dist x d)
unfolding sign
move-Moves s d x hs hd b n = ground arith

-- Where y does not move, x does, by the numbers of one square of places.
abbrev Stuck : ℕ → ℕ → ℕ → Type 0
Stuck hor ver cross = (ltb ver hor || ltb cross hor) ≡ false → (ltb hor ver || ltb cross ver) ≡ true

up_right :
    (p q sx sy dx dy : ℕ)
    → sx < dx
    → sy < dy
    → Stuck (dist (p + dy) (q + sy)) (dist (p + sx) (q + dx)) (dist (p + dy + sx) (q + sy + dx))
up_right p q sx sy dx dy h k e = ground arith

down_left :
    (p q sx sy dx dy : ℕ)
    → dx < sx
    → dy < sy
    → Stuck (dist (p + sx) (q + dx)) (dist (p + dy) (q + sy)) (dist p q)
down_left p q sx sy dx dy h k e = ground arith

up_left :
    (p q sx sy dx dy : ℕ)
    → dx < sx
    → sy < dy
    → Stuck (dist p q) (dist (p + dy + sx) (q + sy + dx)) (dist (p + sx) (q + dx))
up_left p q sx sy dx dy h k e = ground arith

down_right :
    (p q sx sy dx dy : ℕ)
    → sx < dx
    → dy < sy
    → Stuck (dist (p + dy + sx) (q + sy + dx)) (dist p q) (dist (p + dy) (q + sy))
down_right p q sx sy dx dy h k e = ground arith

-- The distance from the line, as it is without wrapping.
exact : Ray → ℕ → ℕ → ℕ
exact r x y = dist (plus r x y) (minus r x y)

off-right : (r : Ray) (x y : ℕ) → exact r (x + 1) y ≡ dist (plus r x y + r.dy) (minus r x y + r.sy)
unfolding exact plus minus
off-right r x y = omega arith

off-up : (r : Ray) (x y : ℕ) → exact r x (y + 1) ≡ dist (plus r x y + r.sx) (minus r x y + r.dx)
unfolding exact plus minus
off-up r x y = omega arith

off-across :
    (r : Ray) (x y : ℕ)
    → exact r (x + 1) (y + 1) ≡ dist (plus r x y + r.dy + r.sx) (minus r x y + r.sy + r.dx)
unfolding exact plus minus
off-across r x y = omega arith

off-here : (r : Ray) (x y : ℕ) → exact r x y ≡ dist (plus r x y) (minus r x y)
unfolding exact plus minus
off-here r x y = refl

-- One of the coordinates moves where neither has reached its end.
exact_moves :
    (r : Ray) (x y : ℕ)
    → Between r.sx r.dx x
    → Between r.sy r.dy y
    → (x == r.dx) ≡ false
    → (y == r.dy) ≡ false
    → Stuck
        (exact r (ahead (sign r.sx r.dx) x) y)
        (exact r x (ahead (sign r.sy r.dy) y))
        (exact r (ahead (sign r.sx r.dx) x) (ahead (sign r.sy r.dy) y))
unfolding sign
exact_moves r x y bx by nx ny = elim (Bool-cases (ltb r.sx r.dx)) [
  | inl e ↦ elim (Bool-cases (ltb r.sy r.dy)) [
    | inl f ↦
        rw (e, f, off-right r x y, off-up r x y, off-across r x y)
          (up_right (plus r x y) (minus r x y) r.sx r.sy r.dx r.dy (ltb→lt r.sx r.dx e)
            (ltb→lt r.sy r.dy f))
    | inr f ↦
        let n : (r.sy == r.dy) ≡ false = ground arith in
        let y' = y - 1 in
        let ey : y ≡ y' + 1 = ground arith in
        let ey' : y' + 1 - 1 ≡ y' = omega arith in
        rw (e, f, n, ey, ey', off-across r x y', off-here r x y', off-right r x y')
          (down_right (plus r x y') (minus r x y') r.sx r.sy r.dx r.dy (ltb→lt r.sx r.dx e)
            (ground arith))
  ]
  | inr e ↦
      let m : (r.sx == r.dx) ≡ false = ground arith in
      let x' = x - 1 in
      let ex : x ≡ x' + 1 = ground arith in
      let ex' : x' + 1 - 1 ≡ x' = omega arith in
      elim (Bool-cases (ltb r.sy r.dy)) [
        | inl f ↦
            rw (e, f, m, ex, ex', off-across r x' y, off-here r x' y, off-up r x' y)
              (up_left (plus r x' y) (minus r x' y) r.sx r.sy r.dx r.dy (ground arith)
                (ltb→lt r.sy r.dy f))
        | inr f ↦
            let n : (r.sy == r.dy) ≡ false = ground arith in
            let y' = y - 1 in
            let ey : y ≡ y' + 1 = ground arith in
            let ey' : y' + 1 - 1 ≡ y' = omega arith in
            rw (e, f, m, n, ex, ex', ey, ey', off-here r x' y', off-up r x' y', off-right r x' y')
              (down_left (plus r x' y') (minus r x' y') r.sx r.sy r.dx r.dy (ground arith)
                (ground arith))
      ]
]

ahead-Between : (s d x : ℕ) → Between s d x → (x == d) ≡ false → Between s d (ahead (sign s d) x)
unfolding sign
ahead-Between s d x b n = ground arith

ray_moves :
    (r : Ray) (x y : ℕ)
    → Small r
    → Near r
    → Between r.sx r.dx x
    → Between r.sy r.dy y
    → (x == r.dx) ≡ false
    → (y == r.dy) ≡ false
    → Stuck
        (off_line r (ahead (sign r.sx r.dx) x) y)
        (off_line r x (ahead (sign r.sy r.dy) y))
        (off_line r (ahead (sign r.sx r.dx) x) (ahead (sign r.sy r.dy) y))
unfolding exact
ray_moves r x y s n bx by nx ny =
    let ax = ahead-Between r.sx r.dx x bx nx in
    let ay = ahead-Between r.sy r.dy y by ny in
    let hor = off_line-exact r _ y s n ax by in
    let ver = off_line-exact r x _ s n bx ay in
    let cross = off_line-exact r _ _ s n ax ay in
    rw (hor, ver, cross) (exact_moves r x y bx by nx ny)

maybe-Between :
    (s d x : ℕ) (c : Bool)
    → s < 2 ^ 16
    → d < 2 ^ 16
    → Between s d x
    → Between s d (if not (x == d) && c then move (sign s d) x else x)
maybe-Between s d x c hs hd b = elim (Bool-cases (x == d)) [
  | inl e ↦ rw e b
  | inr e ↦ rw e (if_intro (Between s d) c (move-Moves s d x hs hd b e).0.0 b)
]

-- Nearer by the two tests of the step, `u` and `v` being the next coordinates if they move.
nearer :
    (d e x y u v : ℕ) (c1 c2 : Bool)
    → ((x == d) ≡ false → dist u d + 1 ≡ dist x d)
    → ((y == e) ≡ false → dist v e + 1 ≡ dist y e)
    → ((x == d) ≡ false → (y == e) ≡ false → c1 ≡ false → c2 ≡ true)
    → (x == d && y == e) ≡ false
    → let y' = (if not (y == e) && (x == d || c1) then v else y) in
      dist (if not (x == d) && (y' == e || c2) then u else x) d + dist y' e < dist x d + dist y e
nearer d e x y u v c1 c2 hx hy m n = elim (Bool-cases (x == d)) [
  | inl a ↦ elim (Bool-cases (y == e)) [
    | inl b ↦ cc (rw (a, b) at n)
    | inr b ↦ rw (a, b) (omega (arith, hy b))
  ]
  | inr a ↦ elim (Bool-cases (y == e)) [
    | inl b ↦ rw (a, b) (rw b (omega (arith, hx a)))
    | inr b ↦ elim (Bool-cases c1) [
      | inl k ↦
          rw (a, b, k)
            (if_intro (λ (z : ℕ). dist z d + dist v e < dist x d + dist y e) (v == e || c2)
              (omega (arith, hx a, hy b)) (omega (arith, hy b)))
      | inr k ↦ rw (a, b, k, m a b k) (rw b (omega (arith, hx a)))
    ]
  ]
]

-- A step keeps the ray between its ends, and brings it nearer to the end until it is there.
abbrev pub OnRay : Ray → ℕ × ℕ → Type 0
OnRay r p = Between r.sx r.dx p.0 × Between r.sy r.dy p.1

pub next-OnRay : (r : Ray) (p : ℕ × ℕ) → Small r → OnRay r p → OnRay r (next r p)
unfolding next
next-OnRay r (x, y) (a, b, c, d) (h, k) =
    (maybe-Between r.sx r.dx x _ a c h, maybe-Between r.sy r.dy y _ b d k)

pub next_nearer :
    (r : Ray) (p : ℕ × ℕ)
    → Small r
    → Near r
    → OnRay r p
    → (p.0 == r.dx && p.1 == r.dy) ≡ false
    → left r (next r p) < left r p
unfolding next
next_nearer r (x, y) (a, b, c, d) near (h, k) n =
    let mx = sign r.sx r.dx in
    let my = sign r.sy r.dy in
    let hor = off_line r (ahead mx x) y in
    let ver = off_line r x (ahead my y) in
    let cross = off_line r (ahead mx x) (ahead my y) in
    nearer r.dx r.dy x y (move mx x) (move my y) (ltb ver hor || ltb cross hor)
      (ltb hor ver || ltb cross ver) (λ e. (move-Moves r.sx r.dx x a c h e).1)
      (λ e. (move-Moves r.sy r.dy y b d k e).1) (λ e f. ray_moves r x y (a, b, c, d) near h k e f) n
