-- ===== src/Trade/Pairs.antt =====
-- Who trades with whom, in src/game.cpp: what holds between the calls of a trade.
use otxserver.Common.{
  ℕ, ◌≡◌, refl, sym, ap, ◌∙◌, ◌≢◌, ◌⊎◌, inl, inr, Bool, true, false, ◌||◌, Option, none, some, ◌==◌,
  if◌then◌else◌, ==→ne, ==_iff, Bool-cases,
}
use otxserver.Trade.{
  TradeState, trade_accept, is_trade_accept, is_trade_acknowledge, is_trade_initiated, Trader,
  no_trade, is_player,
}

-- A state of a player that is in a trade, between two calls.
abbrev pub is_open : TradeState → Bool
is_open s = is_trade_initiated s || (is_trade_accept s || is_trade_acknowledge s)

-- The partners of a trade have each other as partners, whoever has none is in no trade and offers
-- nothing, one who has only been asked offers nothing, and `tradeItems` holds exactly the items that
-- are offered, each with the player who offers it.
pub record Sound (T : ℕ → Trader) (F : ℕ → Option ℕ) : Type 0 where
  pub both : (p q : ℕ) → (T p).partner ≡ some q → (p ≢ q) × ((T q).partner ≡ some p)
  pub idle : (p : ℕ) → (T p).partner ≡ none → T p ≡ no_trade
  pub active : (p q : ℕ) → (T p).partner ≡ some q → is_open (T p).state ≡ true
  pub asked : (p : ℕ) → is_trade_acknowledge (T p).state ≡ true → (T p).item ≡ none
  pub listed : (p i : ℕ) → (T p).item ≡ some i → F i ≡ some p
  pub offered : (p i : ℕ) → F i ≡ some p → (T p).item ≡ some i

some_inj : (a b : ℕ) → some a ≡ some b → a ≡ b
some_inj a b h = cc

-- Whoever has the same partner is the same player.
pub one_partner :
    (T : ℕ → Trader) (F : ℕ → Option ℕ) (p q r : ℕ)
    → Sound T F
    → (T p).partner ≡ some r
    → (T q).partner ≡ some r
    → p ≡ q
one_partner T F p q r s h k = some_inj p q (sym (s.both p r h).1 ∙ (s.both q r k).1)

pub one_item :
    (T : ℕ → Trader) (F : ℕ → Option ℕ) (p q i : ℕ)
    → Sound T F
    → (T p).item ≡ some i
    → (T q).item ≡ some i
    → p ≡ q
one_item T F p q i s h k = some_inj p q (sym (s.listed p i h) ∙ s.listed q i k)

pub is_player-some : (o : Option ℕ) (i : ℕ) → is_player o i ≡ true → o ≡ some i
is_player-some none i h = cc
is_player-some (some x) i h = ap some ((==_iff x i).0 h)

not_itself : (o : Option ℕ) (i : ℕ) → is_player o i ≡ false → o ≢ some i
not_itself none i h e = cc
not_itself (some x) i h e = ==→ne x i h (some_inj x i e)

-- A field that does not hold the state.
if_accept :
    (field : Trader → Option ℕ)
    → ((t : Trader) (s : TradeState) → field (record t { state = s }) ≡ field t)
    → (T : ℕ → Trader) (p r : ℕ)
    → field (if r == p then record (T p) { state = trade_accept } else T r) ≡ field (T r)
if_accept field h T p r = elim (Bool-cases (r == p)) [
  | inl a ↦ rw a (h (T p) trade_accept ∙ ap (λ x. field (T x)) (sym ((==_iff r p).0 a)))
  | inr a ↦ rw a refl
]

-- Nothing is different.
pub same-Sound :
    (T U : ℕ → Trader) (F G : ℕ → Option ℕ)
    → Sound T F
    → ((r : ℕ) → U r ≡ T r)
    → ((i : ℕ) → G i ≡ F i)
    → Sound U G
same-Sound T U F G s e f = record {
  both = λ p q h.
      let b = s.both p q (ap (λ t. t.partner) (sym (e p)) ∙ h) in
      (b.0, ap (λ t. t.partner) (e q) ∙ b.1);
  idle = λ p h. e p ∙ s.idle p (ap (λ t. t.partner) (sym (e p)) ∙ h);
  active =
      λ p q h. ap (λ t. is_open t.state) (e p) ∙ s.active p q (ap (λ t. t.partner) (sym (e p)) ∙ h);
  asked = λ p h.
      ap (λ t. t.item) (e p) ∙ s.asked p (ap (λ t. is_trade_acknowledge t.state) (sym (e p)) ∙ h);
  listed = λ p i h. f i ∙ s.listed p i (ap (λ t. t.item) (sym (e p)) ∙ h);
  offered = λ p i h. ap (λ t. t.item) (e p) ∙ s.offered p i (sym (f i) ∙ h);
}

-- A trade ends: of its two players, and of what they offer, nothing is left.
module _ (T U : ℕ → Trader) (F G : ℕ → Option ℕ) (p q : ℕ) (s : Sound T F)
    (h : (T p).partner ≡ some q)
    (e : (r : ℕ) → U r ≡ (if r == q then no_trade else (if r == p then no_trade else T r)))
    (f : (i : ℕ)
      → G i ≡ (if is_player (T p).item i || is_player (T q).item i then none else F i)) where
  ended : (r : ℕ) → (((r ≡ p) ⊎ (r ≡ q)) × (U r ≡ no_trade)) ⊎ ((r ≢ p) × (r ≢ q) × (U r ≡ T r))
  ended r = elim (Bool-cases (r == q)) [
    | inl a ↦ inl (inr ((==_iff r q).0 a), e r ∙ rw a refl)
    | inr a ↦ elim (Bool-cases (r == p)) [
      | inl b ↦ inl (inl ((==_iff r p).0 b), e r ∙ rw (a, b) refl)
      | inr b ↦ inr (==→ne r p b, ==→ne r q a, e r ∙ rw (a, b) refl)
    ]
  ]

  no_partner : (r x : ℕ) → U r ≡ no_trade → (U r).partner ≡ some x → ⊥
  no_partner r x a b = let c = ap (λ t. t.partner) a in cc

  -- The partner of another player is another player.
  other : (r x : ℕ) → r ≢ p → r ≢ q → (T r).partner ≡ some x → ((x ≢ p) × (x ≢ q))
  other r x a b c =
      let back = (s.both r x c).1 in
      let hq = (s.both p q h).1 in
      (
        λ z. b (some_inj r q (sym back ∙ ap (λ y. (T y).partner) z ∙ h)),
        λ z. a (some_inj r p (sym back ∙ ap (λ y. (T y).partner) z ∙ hq)),
      )

  left : (x : ℕ) → x ≢ p → x ≢ q → U x ≡ T x
  left x a b = elim (ended x) [
    | inl (inl z, u) ↦ absurd (a z)
    | inl (inr z, u) ↦ absurd (b z)
    | inr (y, z, u) ↦ u
  ]

  not_offered :
      (r i : ℕ)
      → r ≢ p
      → r ≢ q
      → (T r).item ≡ some i
      → (is_player (T p).item i || is_player (T q).item i) ≡ false
  not_offered r i a b c = elim (Bool-cases (is_player (T p).item i)) [
    | inl u ↦ absurd (a (one_item T F r p i s c (is_player-some (T p).item i u)))
    | inr u ↦ rw u (elim (Bool-cases (is_player (T q).item i)) [
      | inl v ↦ absurd (b (one_item T F r q i s c (is_player-some (T q).item i v)))
      | inr v ↦ v
    ])
  ]

  -- What is still listed was offered by another player.
  still :
      (r i : ℕ)
      → G i ≡ some r
      → (F i ≡ some r) × (is_player (T p).item i ≡ false) × (is_player (T q).item i ≡ false)
  still r i g =
      let k = sym (f i) ∙ g in
      elim (Bool-cases (is_player (T p).item i)) [
        | inl u ↦ let l = rw u at k in cc
        | inr u ↦ elim (Bool-cases (is_player (T q).item i)) [
          | inl v ↦ let l = rw (u, v) at k in cc
          | inr v ↦ (rw (u, v) at k, u, v)
        ]
      ]

  pub ended-Sound : Sound U G
  ended-Sound = record {
    both = λ r x c. elim (ended r) [
      | inl (w, u) ↦ absurd (no_partner r x u c)
      | inr (a, b, u) ↦
          let d = ap (λ t. t.partner) (sym u) ∙ c in
          let o = other r x a b d in
          let t = s.both r x d in (t.0, ap (λ t. t.partner) (left x o.0 o.1) ∙ t.1)
    ];
    idle = λ r c. elim (ended r) [
      | inl (w, u) ↦ u
      | inr (a, b, u) ↦ u ∙ s.idle r (ap (λ t. t.partner) (sym u) ∙ c)
    ];
    active = λ r x c. elim (ended r) [
      | inl (w, u) ↦ absurd (no_partner r x u c)
      | inr (a, b, u) ↦ ap (λ t. is_open t.state) u ∙ s.active r x (ap (λ t. t.partner) (sym u) ∙ c)
    ];
    asked = λ r c. elim (ended r) [
      | inl (w, u) ↦ ap (λ t. t.item) u
      | inr (a, b, u) ↦
          ap (λ t. t.item) u ∙ s.asked r (ap (λ t. is_trade_acknowledge t.state) (sym u) ∙ c)
    ];
    listed = λ r i c. elim (ended r) [
      | inl (w, u) ↦ let d = ap (λ t. t.item) (sym u) ∙ c in cc
      | inr (a, b, u) ↦
          let d = ap (λ t. t.item) (sym u) ∙ c in f i ∙ rw (not_offered r i a b d) (s.listed r i d)
    ];
    offered = λ r i g.
        let (k, u, v) = still r i g in
        let o = s.offered r i k in
        elim (ended r) [
          | inl (inl z, w) ↦ absurd (not_itself (T p).item i u (ap (λ x. (T x).item) (sym z) ∙ o))
          | inl (inr z, w) ↦ absurd (not_itself (T q).item i v (ap (λ x. (T x).item) (sym z) ∙ o))
          | inr (a, b, w) ↦ ap (λ t. t.item) w ∙ o
        ];
  }

-- A player who is in a trade accepts it.
pub accepted-Sound :
    (T U : ℕ → Trader) (F : ℕ → Option ℕ) (p q : ℕ)
    → Sound T F
    → (T p).partner ≡ some q
    → ((r : ℕ) → U r ≡ (if r == p then record (T p) { state = trade_accept } else T r))
    → Sound U F
accepted-Sound T U F p q s h e =
    let partner : (r : ℕ) → (U r).partner ≡ (T r).partner =
      λ r. ap (λ t. t.partner) (e r) ∙ if_accept (λ t. t.partner) (λ t u. refl) T p r in
    let item : (r : ℕ) → (U r).item ≡ (T r).item =
      λ r. ap (λ t. t.item) (e r) ∙ if_accept (λ t. t.item) (λ t u. refl) T p r in
    let cases : (r : ℕ) → ((U r).state ≡ trade_accept) × (r ≡ p) ⊎ (U r ≡ T r) = λ r.
      elim (Bool-cases (r == p)) [
        | inl a ↦
            let u : Trader = record (T p) { state = trade_accept } in
            let k : (if r == p then u else T r) ≡ u = rw a refl in
            inl (ap (λ t. t.state) (e r ∙ k), (==_iff r p).0 a)
        | inr a ↦ inr (e r ∙ rw a refl)
      ] in
    record {
      both = λ r x c. let b = s.both r x (sym (partner r) ∙ c) in (b.0, partner x ∙ b.1);
      idle = λ r c. elim (cases r) [
        | inl (a, z) ↦
            let d = sym (partner r) ∙ c in let k = ap (λ x. (T x).partner) (sym z) ∙ d in cc
        | inr u ↦ u ∙ s.idle r (sym (partner r) ∙ c)
      ];
      active = λ r x c. elim (cases r) [
        | inl (a, z) ↦ ap is_open a
        | inr u ↦ ap (λ t. is_open t.state) u ∙ s.active r x (sym (partner r) ∙ c)
      ];
      asked = λ r c. elim (cases r) [
        | inl (a, z) ↦ let d = ap is_trade_acknowledge (sym a) ∙ c in cc
        | inr u ↦
            ap (λ t. t.item) u ∙ s.asked r (ap (λ t. is_trade_acknowledge t.state) (sym u) ∙ c)
      ];
      listed = λ r i c. s.listed r i (sym (item r) ∙ c);
      offered = λ r i c. item r ∙ s.offered r i c;
    }
