-- ===== src/Container/Sums.antt =====
-- Sums over the items of a container of src/container.cpp.
use otxserver.Common.{ℕ, zero, suc, ◌+◌, ◌≡◌, some, List, [], ◌∷◌, arith, get_elem?, set}
use otxserver.Container.{Item}
use otxserver.Container.Operations.{erase_at, sum_by}

pub sum_by-set :
    (f : Item → ℕ) (l : List Item) (i : ℕ) (old new : Item)
    → get_elem? l i ≡ some old
    → sum_by f (set l i new) + f old ≡ sum_by f l + f new
unfolding sum_by
sum_by-set f [] i old new h = cc
sum_by-set f (it ∷ its) zero old new h = ground (arith, h)
sum_by-set f (it ∷ its) (suc i) old new h = omega (arith, sum_by-set f its i old new h)

pub sum_by-erase_at :
    (f : Item → ℕ) (l : List Item) (i : ℕ) (old : Item)
    → get_elem? l i ≡ some old
    → sum_by f (erase_at i l) + f old ≡ sum_by f l
unfolding sum_by
sum_by-erase_at f [] i old h = cc
sum_by-erase_at f (it ∷ its) zero old h = ground (arith, h)
sum_by-erase_at f (it ∷ its) (suc i) old h = omega (arith, sum_by-erase_at f its i old h)
