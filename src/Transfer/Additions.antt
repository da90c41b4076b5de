-- ===== src/Transfer/Additions.antt =====
-- `internalAddItem` of src/game.cpp ends and adds all of the item, or answers an error.
use otxserver.Common.{
  ℕ, zero, suc, ◌+◌, ◌-◌, ◌^◌, ◌≤◌, ◌<◌, min, ◌≡◌, ◌≢◌, ◌⊎◌, inl, inr, refl, sym, ap, ◌∙◌, ◌⊎◌, inl,
  inr, Bool, true, false, not, Option, none, some, arith, ltb, ◌==◌, if◌then◌else◌, ltb→lt, ltb→le,
  ==→ne, ==_iff, Bool-cases, if_intro, if_elim,
}
use mathlib.Core.Path.{subst}
use otxserver.Container.{ItemType, Item, Index, wherever, Flags, ReturnValue, no_error, is_no_error}
use otxserver.Transfer.{Place, Cylinders, create_item, merge}
use otxserver.Transfer.Adding.{
  Added, with_remainder, answered, put_item, joined, put_on, internal_add_item,
}
use otxserver.Transfer.Amounts.{merge-Accepts, merge_same, updated, amount_split}
use otxserver.Transfer.Conservation.{is_no_error_lem, not-false}
use otxserver.Transfer.Laws.{Each, amount, Laws}

pub not-true : (b : Bool) → not b ≡ true → b ≡ false
not-true true h = cc
not-true false h = refl

pub no_error-absurd : (r : ReturnValue) → is_no_error r ≡ false → r ≡ no_error → ⊥
no_error-absurd r h e = cc (rw e at h)

module _ {W : Type 0} (items : ℕ → ItemType) (cylinders : Cylinders W)
    (laws : Laws items cylinders) where
  -- Of the items of a kind: all that came, where there is no error, and no more than that otherwise.
  abbrev pub Comes : ℕ → ℕ → W → Added W → Type 0
  Comes id n w r =
      ((r.answer ≡ no_error) × (laws.total id r.state ≡ laws.total id w + n))
      ⊎ ((r.answer ≢ no_error)
          × (laws.total id w ≤ laws.total id r.state)
          × (laws.total id r.state ≤ laws.total id w + n))

  abbrev pub Outcome : ℕ → ℕ → Bool → W → Option (Added W) → Type 0
  Outcome id n test w none = ⊥
  Outcome id n false w (some r) = Comes id n w r
  Outcome id n true w (some r) = r.state ≡ w

  refused :
      (id n : ℕ) (test : Bool) (q : Place) (r : ReturnValue) (w : W)
      → (r ≡ no_error → ⊥)
      → Outcome id n test w (answered items cylinders q r w)
  refused id n true q r w h = refl
  refused id n false q r w h = inr (h, omega arith, omega arith)

  put_item-Comes :
      (id n : ℕ) (q : Place) (it : Item) (w w1 : W)
      → laws.Accepts q.cylinder q.index w1
      → laws.total id w1 + amount id it it.count ≡ laws.total id w + n
      → Outcome id n false w (put_item items cylinders q it w1)
  put_item-Comes id n q it w w1 a e =
      let t = laws.adds_total id q.cylinder q.index it w1 a in inl (refl, omega (arith, t, e))

  with_remainder-Comes :
      (id n m count : ℕ) (d : Option Item) (w w1 : W) (o : Option (Added W))
      → Outcome id m false w1 o
      → laws.total id w1 + m ≡ laws.total id w + n
      → laws.total id w ≤ laws.total id w1
      → Outcome id n false w (with_remainder count d o)
  with_remainder-Comes id n m count d w w1 none h e l = h
  with_remainder-Comes id n m count d w w1 (some r) h e l =
      if_elim (Outcome id n false w) (is_no_error r.answer)
        (λ c. elim h [
          | inl (k, t) ↦ inl (refl, omega (arith, t, e))
          | inr (k, t, u) ↦ absurd (k (is_no_error_lem r.answer c))
        ])
        (λ c. elim h [
          | inl (k, t) ↦ absurd (no_error-absurd r.answer c k)
          | inr (k, t, u) ↦ inr (k, omega (arith, t, l), omega (arith, u, e))
        ])

  joined_le : (it d : Item) (m : ℕ) → joined items cylinders it d m ≤ m
  joined_le it d m = ground arith

  joined_fits :
      (it d : Item) (m : ℕ) → d.count ≤ 100 → d.count + joined items cylinders it d m ≤ 100
  joined_fits it d m h = ground arith

  -- What is put on the item that is there, in a world that stays good.
  merge-joined :
      (id m c : ℕ) (it d : Item) (w : W)
      → laws.Good w
      → laws.Has c d w
      → d.count ≤ 100
      → (items it.id).stackable ≡ true
      → (laws.total id (merge items cylinders c it (some d) (joined items cylinders it d m) w)
          ≡ laws.total id w + amount id it (joined items cylinders it d m))
        × laws.Good (merge items cylinders c it (some d) (joined items cylinders it d m) w)
  merge-joined id m c it d w g h l s =
      let f = joined_fits it d m l in
      elim (Bool-cases (d.id == it.id)) [
        | inl e ↦
            let same = (==_iff d.id it.id).0 e in
            let stacks = subst (λ i. (items i).stackable ≡ true) (sym same) s in
            let n = joined items cylinders it d m in
            let k = merge_same items cylinders laws c n it d w e in
            (
              ap (laws.total id) k
                  ∙ updated items cylinders laws id n c it d w h same s (omega (arith, f)),
              subst laws.Good (sym k) (laws.updates_good c d (d.count + n) w g h stacks f),
            )
        | inr e ↦ rw e (ground arith, g)
      ]

  merge-Known :
      (e c n : ℕ) (it d : Item) (w : W)
      → laws.Known e w
      → laws.Known e (merge items cylinders c it (some d) n w)
  merge-Known e c n it d w h =
      if_intro (laws.Known e) (d.id == it.id) (laws.updates_known c e d d.id (d.count + n) w h) h

  -- What a call that adds a remainder answers.
  abbrev Again : ℕ → ℕ → ℕ → (Item → W → Option (Added W)) → Type 0
  Again id to fuel again =
      (r : Item) (w1 : W)
      → laws.Good w1
      → laws.Known to w1
      → r.count < fuel
      → r.count < 2 ^ 8
      → Outcome id (amount id r r.count) false w1 (again r w1)

  amount_none : (id : ℕ) (it : Item) → amount id it 0 ≡ 0
  amount_none id it = ground arith

  min_left : (a b : ℕ) → a ≤ b → min a b ≡ a
  min_left a b h = omega (arith, h)

  put_on-Comes :
      (id to fuel new_address limit : ℕ) (again : Item → W → Option (Added W)) (q : Place)
      (it : Item) (o : Option Item) (w : W)
      → Again id to fuel again
      → laws.Good w
      → laws.Known to w
      → laws.Accepts q.cylinder q.index w
      → Each (λ x. laws.Has q.cylinder x w × (x.count ≤ 100)) o
      → it.count ≤ limit
      → it.count ≤ fuel
      → it.count < 2 ^ 8
      → (items it.id).stackable ≡ true
      → Outcome id
          (amount id it it.count)
          false
          w
          (put_on items cylinders again new_address q it limit o w)
  put_on-Comes id to fuel new_address limit again q it none w u g k a l e f b s =
      put_item-Comes id (amount id it it.count) q it w w a refl
  put_on-Comes id to fuel new_address limit again q it (some d) w u g k a l e f b s =
      let m = min it.count limit in
      let n = joined items cylinders it d m in
      let w1 = merge items cylinders q.cylinder it (some d) n w in
      let t = merge-joined id m q.cylinder it d w g l.0 l.1 s in
      let same = min_left it.count limit e in
      let le = joined_le it d m in
      let new = create_item new_address it.id (m - n) in
      let split = amount_split items cylinders laws id m n it le in
      let whole = ap (amount id it) same in
      if_elim (Outcome id (amount id it it.count) false w) (ltb 0 (m - n))
        (λ c.
          let size : new.count ≡ m - n = omega (arith, ltb→lt 0 (m - n) c, b, same) in
          let known = merge-Known to q.cylinder n it d w k in
          if_elim (Outcome id (amount id it it.count) false w) (not (it.count == m - n))
            (λ z.
              let less = ==→ne it.count (m - n) (not-true (it.count == m - n) z) in
              with_remainder-Comes id (amount id it it.count) (amount id new new.count) (m - n)
                (some d) w w1 (again new w1)
                (u new w1 t.1 known (omega (arith, size, same, f, less))
                  (omega (arith, size, same, b)))
                (omega (arith, t.0, split, whole, ap (amount id it) size)) (omega (arith, t.0)))
            (λ z.
              let all = (==_iff it.count (m - n)).0 (not-false (it.count == m - n) z) in
              let zero_n : n ≡ 0 = omega (arith, all, same, le) in
              let nothing = ap (amount id it) zero_n ∙ amount_none id it in
              put_item-Comes id (amount id it it.count) q it w w1
                (merge-Accepts items cylinders laws q.cylinder q.cylinder n q.index it (some d) w a)
                (omega (arith, t.0, nothing))))
        (λ c.
          let every : n ≡ it.count = omega (arith, ltb→le 0 (m - n) c, le, same) in
          let r = ap (amount id it) every in inl (refl, omega (arith, t.0, r)))

  allowed :
      (id n : ℕ) (test : Bool) (q : Place) (w : W) (o : Option (Added W))
      → Outcome id n false w o
      → Outcome id n test w (if test then answered items cylinders q no_error w else o)
  allowed id n true q w o h = refl
  allowed id n false q w o h = h

  -- `internalAddItem` ends within as many rounds as the count of the item and one more. Where it answers
  -- no error, the cylinders hold all of the item besides what they held; where it answers an error,
  -- nothing that they held is lost, and they hold at most the item besides; and as a test it changes
  -- nothing. This holds of cylinders that keep the laws, for a count of 8 bits.
  pub internal_add_item-Outcome :
      (id fuel new_address to : ℕ) (index : Index) (it : Item) (flags : Flags) (test : Bool) (w : W)
      → laws.Good w
      → laws.Known to w
      → it.count < fuel
      → it.count < 2 ^ 8
      → Outcome id
          (amount id it it.count)
          test
          w
          (internal_add_item items cylinders fuel new_address to index it flags test w)
  unfolding internal_add_item
  internal_add_item-Outcome id zero new_address to index it flags test w g k f b =
      absurd (omega (arith, f))
  internal_add_item-Outcome id (suc fuel) new_address to index it flags test w g k f b =
      let q = cylinders.query_destination to index it none flags w in
      let a = laws.start to index it none flags w g k tt in
      let limited = cylinders.query_max_count to wherever it it.count flags w in
      let P = Outcome id (amount id it it.count) test w in
      if_elim P (not (is_no_error (cylinders.query_add q.cylinder q.index it it.count flags w)))
        (λ c. refused id (amount id it it.count) test q _ w (no_error-absurd _ (not-true _ c)))
        (λ c.
          if_elim P (not (is_no_error limited.0))
            (λ d. refused id (amount id it it.count) test q _ w (no_error-absurd _ (not-true _ d)))
            (λ d.
              let ok = is_no_error_lem limited.0 (not-false (is_no_error limited.0) d) in
              allowed id (amount id it it.count) test q w _ (
                if_elim (Outcome id (amount id it it.count) false w) (items it.id).stackable
                  (λ s.
                    put_on-Comes id to fuel new_address limited.1 _ q it q.to_item w
                      (λ r w1 h i j l.
                        internal_add_item-Outcome id fuel new_address to wherever r flags false w1 h
                          i j l)
                      g k a.0 a.1 (laws.enough to wherever it it.count flags w ok s)
                      (omega (arith, f)) b s)
                  (λ s. put_item-Comes id (amount id it it.count) q it w w a.0 refl))))
