-- ===== src/Sorting/Tests.antt =====
-- Two transactions, the later one first.
use disgo.Prelude.{◌≡◌, refl, true, List, [], ◌∷◌, ℤ, pos}
use disgo.Types.Transaction
use disgo.Types.Transaction.{Transaction}
use disgo.Sorting.{by_time, sort_by_time, sort_by_time_hash, sort_by, insert_by}
use disgo.Sorting.Order.{AreInOrder, IsInTime, IsInTimeHash, sort_by_time-AreInOrder}
use mathlib.Core.List.{Perm}

abbrev at : ℤ → Transaction
at time = record Transaction.empty { time = time }

abbrev two : List Transaction
two = at (pos 5) ∷ at (pos 3) ∷ []

earlier_first : sort_by_time true two ≡ at (pos 3) ∷ at (pos 5) ∷ []
unfolding sort_by_time sort_by insert_by by_time
earlier_first = refl

sort_by_time-AreInOrder_example :
    AreInOrder (IsInTime true) (sort_by_time true two)
    × Perm (sort_by_time true two) two
    × AreInOrder (IsInTimeHash true) (sort_by_time_hash true two)
    × Perm (sort_by_time_hash true two) two
sort_by_time-AreInOrder_example = sort_by_time-AreInOrder true two
