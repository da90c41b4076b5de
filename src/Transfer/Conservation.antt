-- ===== src/Transfer/Conservation.antt =====
-- `internalMoveItem` of src/game.cpp makes no items and loses none.
use otxserver.Common.{
  ℕ, zero, suc, ◌+◌, ◌^◌, ◌≤◌, ◌<◌, min, ◌≡◌, refl, sym, ap, ◌∙◌, Bool, true, false, not, ◌&&◌,
  Option, none, some, arith, ◌==◌, if◌then◌else◌, if_intro, if_elim,
}
use otxserver.Container.{
  ItemType, Item, Index, wherever, slot, Flags, ReturnValue, no_error, not_possible,
  not_enough_room, code, cannot_pickup, this_is_impossible, not_movable, is_no_error,
}
use otxserver.Transfer.{
  Place, Cylinders, is_need_exchange, no_flags, Move, is_item, settle, put_moved, is_in_trade,
  move_some, exchange_with, exchange, move_to, internal_move_item,
}
use otxserver.Transfer.Amounts.{There, Ready, put_moved-total}
use otxserver.Transfer.Laws.{Each, amount, Laws}

pub is_no_error_lem : (r : ReturnValue) → is_no_error r ≡ true → r ≡ no_error
is_no_error_lem no_error h = refl
is_no_error_lem not_possible h = cc
is_no_error_lem cannot_pickup h = cc
is_no_error_lem this_is_impossible h = cc
is_no_error_lem not_enough_room h = cc
is_no_error_lem not_movable h = cc
is_no_error_lem (code n) h = cc

pub not-false : (b : Bool) → not b ≡ false → b ≡ true
not-false true h = refl
not-false false h = cc

module _ {W : Type 0} (items : ℕ → ItemType) (cylinders : Cylinders W)
    (laws : Laws items cylinders) where
  There-remove :
      (c n : ℕ) (p : Place) (it : Item) (d : Option Item) (w : W)
      → Each (There items cylinders laws p it w) d
      → Each (There items cylinders laws p it (cylinders.remove_thing c it n w)) d
  There-remove c n p it none w h = h
  There-remove c n p it (some d) w h = (laws.removes_has c p.cylinder it d n w h.0 h.2, h.1, h.2)

  -- The item goes from its cylinder to the other.
  moved-total :
      (id m : ℕ) (mv : Move) (p : Place) (flags : Flags) (w : W)
      → Ready items cylinders laws p mv.item w
      → laws.Has mv.from mv.item w
      → mv.item.count < 2 ^ 8
      → ((items mv.item.id).stackable ≡ true → m < 2 ^ 8)
      → cylinders.query_remove mv.from mv.item m flags w ≡ no_error
      → laws.total id
          (put_moved items cylinders mv p m (cylinders.remove_thing mv.from mv.item m w))
        ≡ laws.total id w
  moved-total id m mv p flags w h f k b e =
      put_moved-total items cylinders laws id m mv p (cylinders.remove_thing mv.from mv.item m w)
        (
          laws.removes_accepts mv.from p.cylinder mv.item p.index m w h.0,
          There-remove mv.from m p mv.item p.to_item w h.1,
        )
        b
      ∙ laws.removes_total id mv.from mv.item m flags w f e k

  move_some-total :
      (id : ℕ) (mv : Move) (p : Place) (flags : Flags) (answer : ReturnValue) (w : W)
      → Ready items cylinders laws p mv.item w
      → laws.Has mv.from mv.item w
      → mv.item.count < 2 ^ 8
      → laws.total id (move_some items cylinders mv p flags answer w).1 ≡ laws.total id w
  unfolding move_some
  move_some-total id mv p flags answer w h f k =
      let P = λ (r : ReturnValue × W). laws.total id r.1 ≡ laws.total id w in
      let q = cylinders.query_max_count p.cylinder p.index mv.item mv.count flags w in
      let m = if (items mv.item.id).stackable then min mv.count q.1 else q.1 in
      if_intro P (not (is_no_error answer)) refl (
        if_intro P (not (is_no_error q.0) && q.1 == 0) refl (
          if_elim P (not (is_no_error (cylinders.query_remove mv.from mv.item m flags w)))
            (λ c. refl)
            (λ c. if_intro P (is_in_trade items cylinders mv.trade_item p.cylinder w) refl (
              moved-total id m mv p flags w h f k
                (λ s. omega (
                  arith,
                  k,
                  laws.removes_within mv.from mv.item m flags w f
                      (is_no_error_lem _ (not-false _ c)) s,
                ))
                (is_no_error_lem _ (not-false _ c))))))

  -- The item at the destination goes the other way.
  abbrev exchanged : Move → Place → Item → W → W
  exchanged mv p d w =
      cylinders.add_thing mv.from (slot 0) d (cylinders.remove_thing p.cylinder d d.count w)

  exchanged-total :
      (id : ℕ) (mv : Move) (p : Place) (flags : Flags) (d : Item) (w : W)
      → laws.Good w
      → There items cylinders laws p mv.item w d
      → laws.Has mv.from mv.item w
      → cylinders.query_remove p.cylinder d d.count flags w ≡ no_error
      → laws.total id (exchanged mv p d w) ≡ laws.total id w
  exchanged-total id mv p flags d w g t f k =
      let r = laws.removes_total id p.cylinder d d.count flags w t.0 k (omega (arith, t.1)) in
      let same : (if (items d.id).stackable then d.count else d.count) ≡ d.count =
        if_intro (λ n. n ≡ d.count) (items d.id).stackable refl refl in
      let a =
        laws.removes_accepts p.cylinder mv.from d (slot 0) d.count w
          (laws.has_front mv.from mv.item w g f) in
      laws.adds_total id mv.from (slot 0) d (cylinders.remove_thing p.cylinder d d.count w) a
      ∙ ap (λ n. laws.total id (cylinders.remove_thing p.cylinder d d.count w) + amount id d n)
          (sym same)
      ∙ r

  exchange_with-total :
      (id : ℕ) (mv : Move) (p : Place) (flags : Flags) (d : Item) (answer : ReturnValue)
      (limit : ReturnValue × ℕ) (w : W)
      → laws.Good w
      → Ready items cylinders laws p mv.item w
      → There items cylinders laws p mv.item w d
      → laws.Has mv.from mv.item w
      → mv.item.count < 2 ^ 8
      → laws.total id (exchange_with items cylinders mv p flags d answer limit w).1
        ≡ laws.total id w
  exchange_with-total id mv p flags d answer limit w g h t f k =
      let P = λ (r : ReturnValue × W). laws.total id r.1 ≡ laws.total id w in
      let w1 = exchanged mv p d w in
      let stays = move_some-total id mv p flags answer w h f k in
      let far : (mv.item.address == d.address) ≡ false = ground (arith, t.2) in
      let accepts =
        laws.adds_accepts mv.from p.cylinder (slot 0) p.index d _
          (laws.removes_accepts p.cylinder p.cylinder d p.index d.count w h.0) in
      let has =
        laws.adds_has mv.from mv.from (slot 0) d mv.item _
          (laws.removes_has p.cylinder mv.from d mv.item d.count w f far) far in
      if_intro P (not (is_no_error answer)) stays (
        if_intro P (not (is_no_error limit.0) && limit.1 == 0) refl (
          if_elim P (is_no_error (cylinders.query_remove p.cylinder d d.count flags w))
            (λ c.
              move_some-total id mv (record p { to_item = none }) flags
                (cylinders.query_add p.cylinder p.index mv.item mv.count flags w1) w1 (accepts, tt)
                has k
              ∙ exchanged-total id mv p flags d w g t f (is_no_error_lem _ c))
            (λ c. stays)))

  -- Of a place that the queries answer, before the test that it is not the item itself.
  abbrev Answered : Place → W → Type 0
  Answered p w =
      laws.Accepts p.cylinder p.index w
      × Each (λ x. laws.Has p.cylinder x w × (x.count ≤ 100)) p.to_item

  settle-Answered :
      (floors : ℕ) (p : Place) (it : Item) (flags : Flags) (w : W)
      → laws.Good w
      → laws.Known p.cylinder w
      → Each (λ x. laws.Has p.cylinder x w × (x.count ≤ 100)) p.to_item
      → Answered (settle items cylinders (suc floors) p it flags w).0 w
  unfolding settle
  settle-Answered zero p it flags w g kn h =
      let q = cylinders.query_destination p.cylinder p.index it p.to_item flags w in
      let a = laws.start p.cylinder p.index it p.to_item flags w g kn h in
      if_intro (λ (r : Place × Flags). Answered r.0 w) (q.cylinder == p.cylinder) a a
  settle-Answered (suc floors) p it flags w g kn h =
      let q = cylinders.query_destination p.cylinder p.index it p.to_item flags w in
      let a = laws.start p.cylinder p.index it p.to_item flags w g kn h in
      if_intro (λ (r : Place × Flags). Answered r.0 w) (q.cylinder == p.cylinder) a
        (settle-Answered floors q it no_flags w g (laws.accepts_known q.cylinder q.index w a.0) a.1)

  There-Answered :
      (p : Place) (it : Item) (d : Option Item) (w : W)
      → Each (λ x. laws.Has p.cylinder x w × (x.count ≤ 100)) d
      → is_item it d ≡ false
      → Each (There items cylinders laws p it w) d
  There-Answered p it none w h e = h
  There-Answered p it (some d) w h e = (h.0, h.1, e)

  exchange-total :
      (id : ℕ) (mv : Move) (p : Place) (flags : Flags) (d : Option Item) (w : W)
      → laws.Good w
      → Ready items cylinders laws p mv.item w
      → Each (There items cylinders laws p mv.item w) d
      → laws.Has mv.from mv.item w
      → mv.item.count < 2 ^ 8
      → laws.total id (exchange items cylinders mv p flags d w).1 ≡ laws.total id w
  exchange-total id mv p flags none w g h t f k = refl
  exchange-total id mv p flags (some d) w g h t f k =
      exchange_with-total id mv p flags d
        (cylinders.query_add mv.from (cylinders.get_index_of_thing mv.from mv.item w) d d.count
          no_flags w)
        (cylinders.query_max_count mv.from wherever d d.count no_flags w) w g h t f k

  move_to-total :
      (id : ℕ) (mv : Move) (r : Place × Flags) (w : W)
      → laws.Good w
      → Answered r.0 w
      → laws.Has mv.from mv.item w
      → mv.item.count < 2 ^ 8
      → laws.total id (move_to items cylinders mv r w).1 ≡ laws.total id w
  move_to-total id mv (p, flags) w g a f k =
      let P = λ (r : ReturnValue × W). laws.total id r.1 ≡ laws.total id w in
      let answer = cylinders.query_add p.cylinder p.index mv.item mv.count flags w in
      if_elim P (is_item mv.item p.to_item) (λ c. refl)
        (λ c.
          let t = There-Answered p mv.item p.to_item w a.1 c in
          if_intro P (cylinders.is_blocked p.cylinder mv.item w) refl (
            if_intro P (is_need_exchange answer)
              (exchange-total id mv p flags p.to_item w g (a.0, t) t f k)
              (move_some-total id mv p flags answer w (a.0, t) f k)))

  -- Whatever `internalMoveItem` answers, the cylinders hold as many items of each kind after it as
  -- before: nothing is lost or made where a part of a stack is moved, where it is put on the stack that
  -- is there, where the item that is there goes the other way, and where the move is refused. This
  -- holds of cylinders that keep the laws, for an item that is in its cylinder, with a count of 8 bits.
  pub internal_move_item-total :
      (id : ℕ) (mv : Move) (to : ℕ) (index : Index) (flags : Flags) (w : W)
      → laws.Good w
      → laws.Known to w
      → laws.Has mv.from mv.item w
      → mv.item.count < 2 ^ 8
      → laws.total id (internal_move_item items cylinders mv to index flags w).1 ≡ laws.total id w
  unfolding internal_move_item
  internal_move_item-total id mv to index flags w g kn f k =
      move_to-total id mv _ w g
        (settle-Answered 15 (record { cylinder = to; index = index; to_item = none }) mv.item flags
          w g kn tt)
        f k
