-- ===== src/Heap/Order/Loops.antt =====
-- up and down of container/heap, over commons/queue/priority_queue.go: their fuel is enough, and what
-- they leave is in order.
use disgo.Prelude.{
  ℕ, zero, suc, ◌+◌, ◌-◌, ◌*◌, ◌/◌, ◌<◌, ◌≤◌, ◌≡◌, refl, sym, ap, ◌∙◌, Bool-cases, inl, inr, List,
  ltb_ℤ, ◌==◌, ltb, leb, length, arith,
}
use disgo.Heap.{Item, swap, up, down, child, less}
use disgo.Heap.Places.{
  Le, le_refl, le_trans, le_of_lt, le_of_not_lt, prio, less_lem, get-swap_left, get-swap_right,
  get-swap_else, rank,
}
use disgo.Heap.Weight.{length-swap}
use disgo.Heap.Order.{parent, same_or_not, IsUpTo, IsDownTo, IsExchanged, up_IsUpTo, down_IsDownTo}

module _ {A : Type 0} where
  abbrev pub IsOrdered : List (Item A) → ℕ → Type 0
  IsOrdered l n = (k : ℕ) → 0 < k → k < n → Le (prio l (parent k)) (prio l k)

  -- No item of the heap has a priority below its parent's.
  abbrev pub IsHeap : List (Item A) → Type 0
  IsHeap l = IsOrdered l (length l)

  swap-IsExchanged :
      (l : List (Item A)) (i j : ℕ)
      → i < j
      → j < length l
      → IsExchanged (prio l) (prio (swap l i j)) i j
  swap-IsExchanged l i j h k = record {
    left = ap rank (get-swap_left l i j (omega arith) k (omega arith));
    right = ap rank (get-swap_right l i j (omega arith) k);
    rest = λ n ne_i ne_j. ap rank (get-swap_else l i j (omega arith) k n ne_i ne_j);
  }

  pub up-IsOrdered :
      (fuel : ℕ) (l : List (Item A)) (j n : ℕ)
      → n ≤ length l
      → j < n
      → j < fuel
      → IsUpTo (prio l) n j
      → IsOrdered (up fuel l j) n
  unfolding up
  up-IsOrdered zero l j n h in_j enough inv = absurd (omega arith)
  up-IsOrdered (suc fuel) l j n h in_j enough inv = elim (Bool-cases ((j - 1) / 2 == j)) [
    | inl top ↦
        rw (top, up) λ k some_k in_k. inv.ordered k some_k in_k (ground (arith, top, some_k))
    | inr under ↦
        let small : less l j ((j - 1) / 2) ≡ ltb_ℤ (prio l j) (prio l (parent j)) =
          less_lem l j (parent j) (omega arith) (omega arith) in
        elim (Bool-cases (less l j ((j - 1) / 2))) [
          | inl lower ↦
              rw (under, lower, up)
                (up-IsOrdered fuel (swap l (parent j) j) (parent j) n
                  (omega (arith, h, length-swap l (parent j) j)) (omega (arith, in_j))
                  (ground (arith, enough, under))
                  (up_IsUpTo (prio l) (prio (swap l (parent j) j)) n (parent j) j
                    (swap-IsExchanged l (parent j) j (ground (arith, under)) (omega arith)) refl
                    (ground (arith, under)) (sym small ∙ lower) inv in_j))
          | inr fine ↦
              rw (under, fine, up)
                λ k some_k in_k. elim (same_or_not k j) [
                  | inl here ↦
                      rw here (le_of_not_lt (prio l (parent j)) (prio l j) (sym small ∙ fine))
                  | inr away ↦ inv.ordered k some_k in_k away
                ]
        ]
  ]

  -- The child is one of the two, and has the least priority of them.
  pub child_lem :
      (l : List (Item A)) (i n : ℕ)
      → n ≤ length l
      → 2 * i + 1 < n
      → (parent (child l i n) ≡ i)
        × (0 < child l i n)
        × (child l i n < n)
        × ((k : ℕ) → 0 < k → k < n → parent k ≡ i → Le (prio l (child l i n)) (prio l k))
  unfolding child
  child_lem l i n h some_child = elim (Bool-cases (ltb (2 * i + 1 + 1) n)) [
    | inr one ↦ rw one (
      omega arith,
      omega arith,
      some_child,
      λ k some_k in_k under.
          let here : k ≡ 2 * i + 1 = ground (arith, one, in_k, under, some_k) in
          rw here (le_refl (prio l (2 * i + 1))),
    )
    | inl two ↦
        let second : 2 * i + 1 + 1 < n = ground (arith, two) in
        let small : less l (2 * i + 1 + 1) (2 * i + 1)
            ≡ ltb_ℤ (prio l (2 * i + 1 + 1)) (prio l (2 * i + 1)) =
          less_lem l (2 * i + 1 + 1) (2 * i + 1) (omega arith) (omega arith) in
        elim (Bool-cases (less l (2 * i + 1 + 1) (2 * i + 1))) [
          | inl right ↦
              rw (two, right)
                (
                  omega arith,
                  omega arith,
                  second,
                  λ k some_k in_k under. elim (same_or_not k (2 * i + 1)) [
                    | inl here ↦
                        rw here (
                          le_of_lt (prio l (2 * i + 1 + 1)) (prio l (2 * i + 1))
                            (sym small ∙ right))
                    | inr away ↦
                        let here : k ≡ 2 * i + 1 + 1 = omega (arith, away, under, some_k) in
                        rw here (le_refl (prio l (2 * i + 1 + 1)))
                  ],
                )
          | inr left ↦
              rw (two, left)
                (
                  omega arith,
                  omega arith,
                  some_child,
                  λ k some_k in_k under. elim (same_or_not k (2 * i + 1)) [
                    | inl here ↦ rw here (le_refl (prio l (2 * i + 1)))
                    | inr away ↦
                        let here : k ≡ 2 * i + 1 + 1 = omega (arith, away, under, some_k) in
                        rw here (
                          le_of_not_lt (prio l (2 * i + 1)) (prio l (2 * i + 1 + 1))
                            (sym small ∙ left))
                  ],
                )
        ]
  ]

  pub down-IsOrdered :
      (fuel : ℕ) (l : List (Item A)) (i n : ℕ)
      → n ≤ length l
      → n ≤ fuel + i
      → IsDownTo (prio l) n i
      → IsOrdered (down fuel l i n) n
  unfolding down
  down-IsOrdered zero l i n h enough inv =
      λ k some_k in_k. inv.ordered k some_k in_k (omega (arith, enough, in_k, some_k))
  down-IsOrdered (suc fuel) l i n h enough inv = elim (Bool-cases (leb n (2 * i + 1))) [
    | inl none_below ↦
        rw (none_below, down)
          λ k some_k in_k. inv.ordered k some_k in_k (ground (arith, none_below, in_k, some_k))
    | inr below ↦
        let j = child l i n in
        let (above, some_j, in_j, smallest) = child_lem l i n h (ground (arith, below)) in
        let small : less l j i ≡ ltb_ℤ (prio l j) (prio l i) =
          less_lem l j i (omega arith) (omega arith) in
        elim (Bool-cases (less l j i)) [
          | inl lower ↦
              rw (below, lower, down)
                (down-IsOrdered fuel (swap l i j) j n (omega (arith, h, length-swap l i j))
                  (omega (arith, enough, above, some_j))
                  (down_IsDownTo (prio l) (prio (swap l i j)) n i j
                    (swap-IsExchanged l i j (omega (arith, above, some_j)) (omega arith)) above
                    some_j in_j (sym small ∙ lower) smallest inv))
          | inr fine ↦
              rw (below, fine, down)
                λ k some_k in_k. elim (same_or_not (parent k) i) [
                  | inl here ↦ rw here (
                      le_trans (prio l i) (prio l j) (prio l k)
                        (le_of_not_lt (prio l i) (prio l j) (sym small ∙ fine))
                        (smallest k some_k in_k here))
                  | inr away ↦ inv.ordered k some_k in_k away
                ]
        ]
  ]
