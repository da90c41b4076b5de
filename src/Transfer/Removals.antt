-- ===== src/Transfer/Removals.antt =====
-- What `internalRemoveItem` of src/game.cpp takes away.
use otxserver.Common.{
  ℕ, ◌+◌, ◌^◌, ◌<◌, ◌≡◌, refl, sym, ◌≢◌, ◌⊎◌, inl, inr, Bool, true, false, not, Option, some,
  if◌then◌else◌, if_intro, if_elim,
}
use otxserver.Container.{ItemType, Item, Flags, ReturnValue, no_error, not_possible, is_no_error}
use mathlib.Core.Path.{subst}
use otxserver.Transfer.Additions.{no_error-absurd, not-true}
use otxserver.Transfer.{Cylinders}
use otxserver.Transfer.Adding.{count_or_all, remove_from, internal_remove_item}
use otxserver.Transfer.Conservation.{is_no_error_lem, not-false}
use otxserver.Transfer.Laws.{amount, Laws}

module _ {W : Type 0} (items : ℕ → ItemType) (cylinders : Cylinders W)
    (laws : Laws items cylinders) where
  -- So many of the items of a kind go where there is no error; with an error, or as a test, nothing
  -- changes.
  abbrev pub Goes : ℕ → ℕ → Bool → W → ReturnValue × W → Type 0
  Goes id n test w r =
      ((r.0 ≡ no_error) × (test ≡ false) × (laws.total id r.1 + n ≡ laws.total id w))
      ⊎ (((r.0 ≢ no_error) ⊎ (test ≡ true)) × (r.1 ≡ w))

  kept : (id n : ℕ) (test : Bool) (a : ReturnValue) (w : W) → a ≢ no_error → Goes id n test w (a, w)
  kept id n test a w h = inr (inl h, refl)

  gone :
      (id n m k : ℕ) (it : Item) (test : Bool) (w : W)
      → laws.total id (cylinders.remove_thing k it m w) + n ≡ laws.total id w
      → Goes id n test w (no_error, if test then w else cylinders.remove_thing k it m w)
  gone id n m k it true w h = inr (inr refl, refl)
  gone id n m k it false w h = inl (refl, refl, h)

  remove_from-Goes :
      (id k m : ℕ) (it : Item) (can_remove test : Bool) (flags : Flags) (w : W)
      → laws.Has k it w
      → it.count < 2 ^ 8
      → Goes id
          (amount id it (if (items it.id).stackable then m else it.count))
          test
          w
          (remove_from items cylinders (some k) it can_remove m test flags w)
  remove_from-Goes id k m it can_remove test flags w h b =
      let n = amount id it (if (items it.id).stackable then m else it.count) in
      let f : Flags = record flags { ignore_not_movable = true } in
      if_elim (Goes id n test w) (not (is_no_error (cylinders.query_remove k it m f w)))
        (λ c. kept id n test _ w (no_error-absurd _ (not-true _ c)))
        (λ c.
          if_intro (Goes id n test w) (not can_remove) (kept id n test not_possible w (λ e. cc)) (
            gone id n m k it test w
              (laws.removes_total id k it m f w h (is_no_error_lem _ (not-false _ c)) b)))

  -- Of an item in its cylinder: where `internalRemoveItem` answers no error and it is no test, exactly
  -- what was asked for is gone, or all of the item where no count is given or its kind does not stack;
  -- where it answers an error, or as a test, nothing changes. The cylinders are to keep the laws, and
  -- the count of the item has 8 bits.
  pub internal_remove_item-Goes :
      (id k : ℕ) (it : Item) (can_remove : Bool) (count : Option ℕ) (test : Bool) (flags : Flags)
      (w : W)
      → it.parent ≡ some k
      → laws.Has k it w
      → it.count < 2 ^ 8
      → Goes id
          (amount id it (if (items it.id).stackable then count_or_all it count else it.count))
          test
          w
          (internal_remove_item items cylinders it can_remove count test flags w)
  unfolding internal_remove_item
  internal_remove_item-Goes id k it can_remove count test flags w p h b =
      subst
        (λ o.
          Goes id
            (amount id it (if (items it.id).stackable then count_or_all it count else it.count))
            test w
            (remove_from items cylinders o it can_remove (count_or_all it count) test flags w))
        (sym p) (remove_from-Goes id k (count_or_all it count) it can_remove test flags w h b)
