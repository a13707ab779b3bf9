-- ===== src/Heap/Tests.antt =====
-- Three items, the one of the least priority pushed last.
use disgo.Prelude.{ℕ, ◌<◌, ◌≡◌, refl, subst, List, [], ◌∷◌, pos, length, arith}
use disgo.Types.Errors.{ok}
use disgo.Heap.{Item, push, pop, up, down, child, less, swap}
use disgo.Heap.Places.{Le, prio}
use disgo.Heap.Order.Loops.{IsHeap}
use disgo.Heap.Order.Least.{push-IsHeap, pop-IsHeap}

abbrev item : ℕ → Item ℕ
item n = record { value = n; priority = pos n }

abbrev three : List (Item ℕ)
three = item 3 ∷ item 7 ∷ item 5 ∷ []

built : push (push (push [] (item 7)) (item 5)) (item 3) ≡ three
unfolding push up less swap
built = refl

three-IsHeap : IsHeap three
three-IsHeap = subst IsHeap built (
    push-IsHeap _ (item 3)
      (push-IsHeap _ (item 5) (push-IsHeap [] (item 7) λ k some_k in_k. absurd (omega arith))))

least_first : pop three ≡ ok (item 3, item 5 ∷ item 7 ∷ [])
unfolding pop down child less swap
least_first = refl

pop-IsHeap_example :
    IsHeap (push three (item 4))
    × IsHeap (item 5 ∷ item 7 ∷ [])
    × ((k : ℕ) → k < length three → Le (pos 3) (prio three k))
pop-IsHeap_example =
    pop-IsHeap three (item 4) (item 3) (item 5 ∷ item 7 ∷ []) three-IsHeap least_first
