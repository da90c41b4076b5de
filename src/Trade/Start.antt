-- ===== src/Trade/Start.antt =====
-- The start of a trade in src/game.cpp, by what it changes.
use otxserver.Common.{
  ℕ, ◌≡◌, sym, ap, ◌∙◌, ◌≢◌, ◌⊎◌, inl, inr, true, Option, none, some, ◌==◌, if◌then◌else◌, ==→ne,
  ==_iff, Bool-cases,
}
use otxserver.Trade.{trade_initiated, is_trade_acknowledge, Trader}
use otxserver.Trade.Pairs.{is_open, Sound}

-- Two players, who have no other partners, and an item that nobody offers.
module _ (T U : ℕ → Trader) (F G : ℕ → Option ℕ) (p q i : ℕ) (s : Sound T F) (apart : p ≢ q)
    (free_p : (x : ℕ) → (T p).partner ≡ some x → x ≡ q)
    (free_q : (x : ℕ) → (T q).partner ≡ some x → x ≡ p) (empty : (T p).item ≡ none)
    (new_item : F i ≡ none)
    (up : U p ≡ record { partner = some q; item = some i; state = trade_initiated })
    (uq : (U q).partner ≡ some p) (uq_item : (U q).item ≡ (T q).item)
    (uq_open : is_open (U q).state ≡ true)
    (uq_asked : is_trade_acknowledge (U q).state ≡ true → (U q).item ≡ none)
    (ur : (r : ℕ) → r ≢ p → r ≢ q → U r ≡ T r)
    (g : (j : ℕ) → G j ≡ (if j == i then some p else F j)) where
  who : (r : ℕ) → (r ≡ p) ⊎ (r ≡ q) ⊎ ((r ≢ p) × (r ≢ q))
  who r = elim (Bool-cases (r == p)) [
    | inl a ↦ inl ((==_iff r p).0 a)
    | inr a ↦ elim (Bool-cases (r == q)) [
      | inl b ↦ inr (inl ((==_iff r q).0 b))
      | inr b ↦ inr (inr (==→ne r p a, ==→ne r q b))
    ]
  ]

  -- The partner of another player is neither of the two.
  others : (r x : ℕ) → r ≢ p → r ≢ q → (T r).partner ≡ some x → ((x ≢ p) × (x ≢ q))
  others r x a b c =
      let back = (s.both r x c).1 in
      (
        λ z. b (free_p r (ap (λ y. (T y).partner) (sym z) ∙ back)),
        λ z. a (free_q r (ap (λ y. (T y).partner) (sym z) ∙ back)),
      )

  -- The items of the others, and of the partner, are another.
  old_item : (r j : ℕ) → (T r).item ≡ some j → G j ≡ some r
  old_item r j c = elim (Bool-cases (j == i)) [
    | inl a ↦ let z = sym new_item ∙ ap F (sym ((==_iff j i).0 a)) ∙ s.listed r j c in cc
    | inr a ↦ g j ∙ rw a (s.listed r j c)
  ]

  some_eq : (a b : ℕ) → some a ≡ some b → a ≡ b
  some_eq a b h = cc

  pub started-Sound : Sound U G
  started-Sound = record {
    both = λ r x c. elim (who r) [
      | inl z ↦
          let d = ap (λ t. t.partner) (sym up ∙ ap U (sym z)) ∙ c in
          let xq = some_eq q x d in
          (λ w. apart (sym z ∙ w ∙ sym xq), ap (λ y. (U y).partner) (sym xq) ∙ uq ∙ ap some (sym z))
      | inr (inl z) ↦
          let d = sym uq ∙ ap (λ y. (U y).partner) (sym z) ∙ c in
          let xp = some_eq p x d in
          (
            λ w. apart (xp ∙ sym w ∙ z),
            ap (λ y. (U y).partner) (sym xp) ∙ ap (λ t. t.partner) up ∙ ap some (sym z),
          )
      | inr (inr (a, b)) ↦
          let u = ur r a b in
          let d = ap (λ t. t.partner) (sym u) ∙ c in
          let o = others r x a b d in
          let t = s.both r x d in (t.0, ap (λ t. t.partner) (ur x o.0 o.1) ∙ t.1)
    ];
    idle = λ r c. elim (who r) [
      | inl z ↦ let d = ap (λ t. t.partner) (sym up ∙ ap U (sym z)) ∙ c in cc
      | inr (inl z) ↦ let d = sym uq ∙ ap (λ y. (U y).partner) (sym z) ∙ c in cc
      | inr (inr (a, b)) ↦ let u = ur r a b in u ∙ s.idle r (ap (λ t. t.partner) (sym u) ∙ c)
    ];
    active = λ r x c. elim (who r) [
      | inl z ↦ ap (λ y. is_open (U y).state) z ∙ ap (λ t. is_open t.state) up
      | inr (inl z) ↦ ap (λ y. is_open (U y).state) z ∙ uq_open
      | inr (inr (a, b)) ↦
          let u = ur r a b in
          ap (λ t. is_open t.state) u ∙ s.active r x (ap (λ t. t.partner) (sym u) ∙ c)
    ];
    asked = λ r c. elim (who r) [
      | inl z ↦ let d = ap (λ t. is_trade_acknowledge t.state) (sym up ∙ ap U (sym z)) ∙ c in cc
      | inr (inl z) ↦
          ap (λ y. (U y).item) z ∙ uq_asked (ap (λ y. is_trade_acknowledge (U y).state) (sym z) ∙ c)
      | inr (inr (a, b)) ↦
          let u = ur r a b in
          ap (λ t. t.item) u ∙ s.asked r (ap (λ t. is_trade_acknowledge t.state) (sym u) ∙ c)
    ];
    listed = λ r j c. elim (who r) [
      | inl z ↦
          let d = some_eq i j (ap (λ t. t.item) (sym up ∙ ap U (sym z)) ∙ c) in
          let k : (j == i) ≡ true = (==_iff j i).1 (sym d) in g j ∙ rw k (ap some (sym z))
      | inr (inl z) ↦
          old_item q j (sym uq_item ∙ ap (λ y. (U y).item) (sym z) ∙ c) ∙ ap some (sym z)
      | inr (inr (a, b)) ↦ old_item r j (ap (λ t. t.item) (sym (ur r a b)) ∙ c)
    ];
    offered = λ r j c. elim (Bool-cases (j == i)) [
      | inl a ↦
          let k = sym (g j) ∙ c in
          let rp = some_eq p r (rw a at k) in
          ap (λ y. (U y).item) (sym rp) ∙ ap (λ t. t.item) up ∙ ap some (sym ((==_iff j i).0 a))
      | inr a ↦
          let k = sym (g j) ∙ c in
          let o = s.offered r j (rw a at k) in
          elim (who r) [
            | inl z ↦ let d = sym empty ∙ ap (λ y. (T y).item) (sym z) ∙ o in cc
            | inr (inl z) ↦ ap (λ y. (U y).item) z ∙ uq_item ∙ ap (λ y. (T y).item) (sym z) ∙ o
            | inr (inr (b, d)) ↦ ap (λ t. t.item) (ur r b d) ∙ o
          ]
    ];
  }
