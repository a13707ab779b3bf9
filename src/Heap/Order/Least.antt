-- ===== src/Heap/Order/Least.antt =====
-- heap.Push and heap.Pop over commons/queue/priority_queue.go: the heap stays one, and the least is
-- popped.
use disgo.Prelude.{
  ℕ, zero, suc, ◌+◌, ◌*◌, ◌<◌, ◌≤◌, ◌≡◌, refl, sym, ap, subst, ◌∙◌, Bool-cases, inl, inr, some,
  List, [], ◌∷◌, ◌++◌, length, get_elem?, take, arith, length-take, length-append, leb,
}
use disgo.Types.Errors.{ok, ok-injective}
use disgo.Heap.{Item, swap, down, child, less, push, pop, last_of}
use disgo.Heap.Places.{Le, le_refl, le_trans, prio, get-swap_right, get-swap_else}
use disgo.Heap.Weight.{length-swap, length_as_weight, weigh-push}
use disgo.Heap.Order.{parent, IsUpTo, IsDownTo}
use disgo.Heap.Order.Loops.{IsOrdered, IsHeap, up-IsOrdered, down-IsOrdered, child_lem}

module _ {A : Type 0} where
  get-append :
      (l : List (Item A)) (x : Item A) (k : ℕ)
      → k < length l
      → get_elem? (l ++ x ∷ []) k ≡ get_elem? l k
  get-append [] x k h = absurd (omega arith)
  get-append (y ∷ l) x zero h = refl
  get-append (y ∷ l) x (suc k) h = get-append l x k (omega arith)

  get-take : (n k : ℕ) (l : List (Item A)) → k < n → get_elem? (take n l) k ≡ get_elem? l k
  get-take zero k l h = absurd (omega arith)
  get-take (suc n) k [] h = refl
  get-take (suc n) zero (y ∷ l) h = refl
  get-take (suc n) (suc k) (y ∷ l) h = get-take n k l (omega arith)

  -- What lies behind the heap stays where it is.
  get-down :
      (fuel : ℕ) (l : List (Item A)) (i n : ℕ)
      → n < length l
      → get_elem? (down fuel l i n) n ≡ get_elem? l n
  unfolding down
  get-down zero l i n h = refl
  get-down (suc fuel) l i n h = elim (Bool-cases (leb n (2 * i + 1))) [
    | inl none_below ↦ rw (none_below, down) refl
    | inr below ↦
        let j = child l i n in
        let (above, some_j, in_j, _) = child_lem l i n (omega arith) (ground (arith, below)) in
        elim (Bool-cases (less l j i)) [
          | inr fine ↦ rw (below, fine, down) refl
          | inl lower ↦
              rw (below, lower, down)
                (get-down fuel (swap l i j) j n (omega (arith, h, length-swap l i j))
                  ∙ get-swap_else l i j (omega (arith, h, above, in_j)) (omega (arith, h, in_j)) n
                      (omega (arith, above, in_j)) (omega (arith, in_j)))
        ]
  ]

  up_to_first :
      (n b k : ℕ) (l : List (Item A)) → IsOrdered l n → k < n → k ≤ b → Le (prio l 0) (prio l k)
  up_to_first n b zero l heap h f = le_refl (prio l 0)
  up_to_first n zero (suc k) l heap h f = absurd (omega arith)
  up_to_first n (suc b) (suc k) l heap h f =
      le_trans (prio l 0) (prio l (parent (suc k))) (prio l (suc k))
        (up_to_first n b (parent (suc k)) l heap (omega (arith, h)) (omega (arith, f)))
        (heap (suc k) (omega arith) h)

  length-push : (l : List (Item A)) (x : Item A) → length (push l x) ≡ length l + 1
  length-push l x =
      sym (length_as_weight (push l x))
      ∙ weigh-push (λ x. 1) l x
      ∙ ap (λ (n : ℕ). n + 1) (length_as_weight l)

  pushed-IsUpTo :
      (l : List (Item A)) (x : Item A)
      → IsHeap l
      → IsUpTo (prio (l ++ x ∷ [])) (suc (length l)) (length l)
  pushed-IsUpTo l x heap = record {
    ordered = λ k some_k in_k away.
        rw
          (
            get-append l x k (omega (arith, in_k, away)),
            get-append l x (parent k) (omega (arith, in_k, away, some_k)),
          )
          (heap k some_k (omega (arith, in_k, away)));
    across = λ k some_k in_k under _. absurd (omega (arith, under, in_k, some_k));
  }

  pub push-IsHeap : (l : List (Item A)) (x : Item A) → IsHeap l → IsHeap (push l x)
  unfolding push
  push-IsHeap l x heap k some_k in_k =
      up-IsOrdered (suc (length l)) (l ++ x ∷ []) (length l) (suc (length l))
        (omega (arith, length-append l (x ∷ []))) (omega arith) (omega arith)
        (pushed-IsUpTo l x heap) k some_k (omega (arith, in_k, length-push l x))

  module _ (y : Item A) (l : List (Item A)) (heap : IsHeap (y ∷ l)) where
    abbrev swapped : List (Item A)
    swapped = swap (y ∷ l) 0 (length l)

    abbrev sunk : List (Item A)
    sunk = down (suc (length l)) swapped 0 (length l)

    size : length swapped ≡ suc (length l)
    size = length-swap (y ∷ l) 0 (length l)

    last_is : get_elem? sunk (length l) ≡ some y
    last_is =
        get-down (suc (length l)) swapped 0 (length l) (omega (arith, size))
        ∙ get-swap_right (y ∷ l) 0 (length l) (omega arith) (omega arith)

    swapped-IsDownTo : IsDownTo (prio swapped) (length l) 0
    swapped-IsDownTo = record {
      ordered = λ k some_k in_k under.
          rw
            (
              get-swap_else (y ∷ l) 0 (length l) (omega arith) (omega arith) k
                  (omega (arith, some_k)) (omega (arith, in_k)),
              get-swap_else (y ∷ l) 0 (length l) (omega arith) (omega arith) (parent k) under
                  (omega (arith, in_k)),
            )
            (heap k some_k (omega (arith, in_k)));
      across = λ k some_k in_k under some_0. absurd (omega (arith, some_0));
    }

    rest-IsHeap : IsHeap (take (length l) sunk)
    rest-IsHeap k some_k in_k =
        let inside : k < length l = omega (arith, in_k, length-take (length l) sunk) in
        rw
          (
            get-take (length l) k sunk inside,
            get-take (length l) (parent k) sunk (omega (arith, inside)),
          )
          (down-IsOrdered (suc (length l)) swapped 0 (length l) (omega (arith, size)) (omega arith)
            swapped-IsDownTo k some_k inside)

  -- Pushing leaves a heap, in which no item has a priority below its parent's. Popping an item from a
  -- heap leaves one, and no item of the heap has a priority below that of the one that is popped.
  pub pop-IsHeap :
      (l : List (Item A)) (x y : Item A) (rest : List (Item A))
      → IsHeap l
      → pop l ≡ ok (y, rest)
      → IsHeap (push l x) × IsHeap rest × ((k : ℕ) → k < length l → Le y.priority (prio l k))
  unfolding pop last_of
  pop-IsHeap [] x y rest heap e = cc
  pop-IsHeap (z ∷ l) x y rest heap e =
      let popped : (z, take (length l) (sunk z l heap)) ≡ (y, rest) =
        ok-injective (rw (last_is z l heap) at e) in
      (
        push-IsHeap (z ∷ l) x heap,
        subst IsHeap (ap (λ (p : Item A × List (Item A)). p.1) popped) (rest-IsHeap z l heap),
        λ k in_k.
            subst (λ (w : Item A). Le w.priority (prio (z ∷ l) k))
              (ap (λ (p : Item A × List (Item A)). p.0) popped)
              (up_to_first (suc (length l)) k k (z ∷ l) heap in_k (omega arith)),
      )
