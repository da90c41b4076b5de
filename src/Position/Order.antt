-- ===== src/Position/Order.antt =====
-- The comparisons of src/position.h.
use otxserver.Common.{◌≡◌, ◌↔◌, ◌⊎◌, true, false, arith, ◌==◌}
use otxserver.Position.{Position, PositionEx, InRange16, lt, gt, eq, add, sub, eq_ex, ne_ex}

-- `operator==` holds exactly of equal positions.
pub eq_iff : (p q : Position) → (eq p q ≡ true) ↔ (p ≡ q)
unfolding eq
eq_iff p q = ground arith

pub lt_irrefl : (p : Position) → lt p p ≡ false
unfolding lt
lt_irrefl p = ground arith

-- `operator<` is transitive, and what it orders it does not order the other way round.
pub lt_trans :
    (p q r : Position) → lt p q ≡ true → lt q r ≡ true → (lt p r ≡ true) × (lt r p ≡ false)
unfolding lt
lt_trans p q r h k = (ground arith, ground arith)

-- No position is below itself, and of two positions one is below the other or `operator==` holds
-- of them.
pub lt_total :
    (p q : Position) → (lt p p ≡ false) × ((lt p q ≡ true) ⊎ (eq p q ≡ true) ⊎ (lt q p ≡ true))
unfolding lt eq
lt_total p q = (lt_irrefl p, ground arith)

-- `operator>` is not the converse of `operator<`: it holds of `p` and `q` exactly when `q < p` or
-- the two are equal, so it holds of every position and itself.
pub gt_iff : (p q : Position) → (gt p q ≡ true) ↔ ((lt q p ≡ true) ⊎ (p ≡ q))
unfolding gt lt
gt_iff p q = ground arith

-- On positions whose coordinates are uint16_t, `operator-` undoes `operator+`, also where a sum of
-- coordinates wraps.
pub sub-add : (p q : Position) → InRange16 p → InRange16 q → sub (add p q) q ≡ p
unfolding sub add
sub-add p q hp hq = ground arith

-- Where two values of `PositionEx` have the same coordinates, `PositionEx::operator!=` answers the
-- same as `PositionEx::operator==`: true if the stack positions are equal, false if they differ.
pub ne_ex-eq-eq_ex :
    (p q : PositionEx)
    → p.base ≡ q.base
    → (ne_ex p q ≡ eq_ex p q) × (eq_ex p q ≡ (p.stackpos == q.stackpos))
unfolding ne_ex eq_ex
ne_ex-eq-eq_ex p q h = ground arith
