-- ===== src/Heap/Order.antt =====
-- The order of the heap of commons/queue/priority_queue.go: container/heap's up and down restore it.
pub mod Loops
pub mod Least
use mathlib.Core.Logic.{◌≢◌}
use disgo.Prelude.{
  ℕ, zero, suc, ◌+◌, ◌-◌, ◌*◌, ◌/◌, ◌<◌, ◌≤◌, ◌≡◌, refl, sym, ap, ◌∙◌, Bool, true, false,
  Bool-cases, ◌⊎◌, inl, inr, List, ℤ, ltb_ℤ, ◌==◌, ltb, length, arith,
}
use disgo.Heap.{Item, swap, up, down, child, less}
use disgo.Heap.Places.{
  Le, le_trans, le_of_lt, prio, less_lem, get-swap_left, get-swap_right, get-swap_else, rank,
}
use disgo.Heap.Weight.{length-swap}

abbrev pub parent : ℕ → ℕ
parent k = (k - 1) / 2

pub same_or_not : (a b : ℕ) → (a ≡ b) ⊎ (a ≢ b)
same_or_not a b = elim (Bool-cases (a == b)) [
  | inl e ↦ inl (ground (arith, e))
  | inr e ↦ inr (ground (arith, e))
]

-- Where an item has a priority below its parent's at most at the place `j`, which is being moved up.
pub record IsUpTo (p : ℕ → ℤ) (n j : ℕ) : Type 0 where
  pub ordered : (k : ℕ) → 0 < k → k < n → k ≢ j → Le (p (parent k)) (p k)
  pub across : (k : ℕ) → 0 < k → k < n → parent k ≡ j → 0 < j → Le (p (parent j)) (p k)

-- The priorities after two items have been exchanged.
pub record IsExchanged (p q : ℕ → ℤ) (i j : ℕ) : Type 0 where
  pub left : q i ≡ p j
  pub right : q j ≡ p i
  pub rest : (k : ℕ) → k ≢ i → k ≢ j → q k ≡ p k

module _ (p q : ℕ → ℤ) (n i j : ℕ) (x : IsExchanged p q i j) (above : parent j ≡ i) (some_j : 0 < j)
    (lower : ltb_ℤ (p j) (p i) ≡ true) (inv : IsUpTo p n j) where
  up_ordered : (k : ℕ) → 0 < k → k < n → k ≢ i → Le (q (parent k)) (q k)
  up_ordered k some_k in_k ne = elim (same_or_not k j) [
    | inl here ↦ rw (here, above, x.left, x.right) (le_of_lt (p j) (p i) lower)
    | inr away ↦ rw (x.rest k ne away) (elim (same_or_not (parent k) i) [
      | inl sibling ↦
          rw (sibling, x.left)
            (le_trans (p j) (p i) (p k) (le_of_lt (p j) (p i) lower)
              (rw (← sibling) (inv.ordered k some_k in_k away)))
      | inr far ↦ elim (same_or_not (parent k) j) [
        | inl child ↦ rw (child, x.right) (rw (← above) (inv.across k some_k in_k child some_j))
        | inr apart ↦ rw (x.rest (parent k) far apart) (inv.ordered k some_k in_k away)
      ]
    ])
  ]

  up_across : (k : ℕ) → 0 < k → k < n → parent k ≡ i → 0 < i → j < n → Le (q (parent i)) (q k)
  up_across k some_k in_k under some_i in_j =
      let grand : Le (p (parent i)) (p i) =
        inv.ordered i some_i (omega (arith, above, in_j)) (omega (arith, above, some_j)) in
      rw (x.rest (parent i) (omega (arith, some_i)) (omega (arith, above, some_j, some_i)))
        (elim (same_or_not k j) [
          | inl here ↦ rw (here, x.right) grand
          | inr away ↦ rw (x.rest k (omega (arith, under, some_k)) away) (
              le_trans (p (parent i)) (p i) (p k) grand
                (rw (← under) (inv.ordered k some_k in_k away)))
        ])

  up_IsUpTo : j < n → IsUpTo q n i
  up_IsUpTo in_j = record {
    ordered = up_ordered;
    across = λ k some_k in_k under some_i. up_across k some_k in_k under some_i in_j;
  }

-- Where an item has a priority above a child's at most at the place `i`, which is being moved down.
pub record IsDownTo (p : ℕ → ℤ) (n i : ℕ) : Type 0 where
  pub ordered : (k : ℕ) → 0 < k → k < n → parent k ≢ i → Le (p (parent k)) (p k)
  pub across : (k : ℕ) → 0 < k → k < n → parent k ≡ i → 0 < i → Le (p (parent i)) (p k)

module _ (p q : ℕ → ℤ) (n i j : ℕ) (x : IsExchanged p q i j) (above : parent j ≡ i) (some_j : 0 < j)
    (in_j : j < n) (lower : ltb_ℤ (p j) (p i) ≡ true)
    (smallest : (k : ℕ) → 0 < k → k < n → parent k ≡ i → Le (p j) (p k))
    (inv : IsDownTo p n i) where
  down_ordered : (k : ℕ) → 0 < k → k < n → parent k ≢ j → Le (q (parent k)) (q k)
  down_ordered k some_k in_k ne = elim (same_or_not k j) [
    | inl here ↦ rw (here, above, x.left, x.right) (le_of_lt (p j) (p i) lower)
    | inr away ↦ elim (same_or_not (parent k) i) [
      | inl sibling ↦
          rw (x.rest k (omega (arith, sibling, some_k)) away, sibling, x.left)
            (smallest k some_k in_k sibling)
      | inr far ↦ elim (same_or_not k i) [
        | inl up ↦
            rw (x.rest (parent k) far ne, up, x.left)
              (inv.across j some_j in_j above (omega (arith, up, some_k)))
        | inr apart ↦
            rw (x.rest k apart away, x.rest (parent k) far ne) (inv.ordered k some_k in_k far)
      ]
    ]
  ]

  down_across : (k : ℕ) → 0 < k → k < n → parent k ≡ j → 0 < j → Le (q (parent j)) (q k)
  down_across k some_k in_k under _ =
      rw
        (
          above,
          x.left,
          x.rest k (omega (arith, under, above, some_j)) (omega (arith, under, some_k)),
        )
        (rw (← under) (inv.ordered k some_k in_k (omega (arith, under, above, some_j))))

  down_IsDownTo : IsDownTo q n j
  down_IsDownTo = record { ordered = down_ordered; across = down_across }
