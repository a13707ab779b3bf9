-- ===== src/Sorting.antt =====
-- commons/types/transaction_sorter.go: transactions in the order of their times. sort.Sort is an
-- insertion sort here; it may leave transactions of one time in another order.
pub mod Order
mod Tests
use disgo.Prelude.{ℕ, Bool, true, false, List, [], ◌∷◌, ℤ, ltb, ◌==◌, ltb_ℤ, eqb_ℤ, if◌then◌else◌}
use disgo.Prelude.Text.{Bytes}
use disgo.Types.Transaction.{Transaction}

-- `<` on strings
unfoldable pub less_text : Bytes → Bytes → Bool
less_text s [] = false
less_text [] (b ∷ t) = true
less_text (a ∷ s) (b ∷ t) = let rest = less_text s t in if a == b then rest else ltb a b

module _ {A : Type 0} (less : A → A → Bool) where
  unfoldable pub insert_by : A → List A → List A
  insert_by x [] = x ∷ []
  insert_by x (y ∷ l) = let rest = insert_by x l in if less y x then y ∷ rest else x ∷ y ∷ l

  -- By.Sort: sort.Sort over the TransactionSorter of the slice and the order
  unfoldable pub sort_by : List A → List A
  unfolding insert_by
  sort_by [] = []
  sort_by (x ∷ l) = insert_by x (sort_by l)

unfoldable pub by_time : Bool → Transaction → Transaction → Bool
by_time true t₁ t₂ = ltb_ℤ t₁.time t₂.time
by_time false t₁ t₂ = ltb_ℤ t₂.time t₁.time

unfoldable pub sort_by_time : Bool → List Transaction → List Transaction
sort_by_time ascending = sort_by (by_time ascending)

unfoldable pub by_time_hash : Bool → Transaction → Transaction → Bool
by_time_hash true t₁ t₂ =
    if eqb_ℤ t₁.time t₂.time then less_text t₁.hash t₂.hash else ltb_ℤ t₁.time t₂.time
by_time_hash false t₁ t₂ =
    if eqb_ℤ t₂.time t₁.time then less_text t₂.hash t₁.hash else ltb_ℤ t₂.time t₁.time

unfoldable pub sort_by_time_hash : Bool → List Transaction → List Transaction
sort_by_time_hash ascending = sort_by (by_time_hash ascending)
