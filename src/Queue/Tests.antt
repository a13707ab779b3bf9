-- ===== src/Queue/Tests.antt =====
-- A run of commons/queue/gossip_queue.go: the older of two transactions is popped first.
use disgo.Prelude.{◌≡◌, refl, true, false, [], ◌∷◌, pos, ℤ, ◌+◌}
use disgo.Prelude.Text.{Bytes, codes}
use disgo.Types.Errors.{ok}
use disgo.Types.Transaction
use disgo.Types.Gossip.{Gossip}
use disgo.Heap
use disgo.Heap.{Item}
use disgo.Heap.Weight.{weigh, push-pop}
use disgo.Queue.{new_queue, exists_in, put, delete, exists, push, pop}
use disgo.Queue.Tracking.{IsTracked, push-IsTracked, pop-IsTracked}

abbrev gossip : Bytes → ℤ → Gossip
gossip hash time = record {
  transaction = record Transaction.empty { hash = hash; time = time };
  rumors = [];
}

abbrev later : Gossip
later = gossip (codes "aa") (pos 9)

abbrev older : Gossip
older = gossip (codes "bb") (pos 5)

new-IsTracked : IsTracked new_queue
unfolding exists exists_in
new-IsTracked h = refl

nothing_yet : exists new_queue (codes "aa") ≡ false
unfolding exists exists_in
nothing_yet = refl

not_older_yet : exists (push new_queue later) (codes "bb") ≡ false
unfolding exists exists_in push put
not_older_yet = refl

one-IsTracked : IsTracked (push new_queue later)
one-IsTracked = push-IsTracked new_queue later new-IsTracked nothing_yet

push-IsTracked_example : IsTracked (push (push new_queue later) older)
push-IsTracked_example = push-IsTracked (push new_queue later) older one-IsTracked not_older_yet

two-IsTracked : IsTracked (push (push new_queue later) older)
two-IsTracked = push-IsTracked (push new_queue later) older one-IsTracked not_older_yet

older_first : pop (push (push new_queue later) older) ≡ ok (older, push new_queue later)
unfolding pop push put delete Heap.push Heap.pop Heap.up Heap.down Heap.swap Heap.child Heap.less
older_first = refl

pop-IsTracked_example :
    IsTracked (push new_queue later)
    × (exists (push (push new_queue later) older) (codes "bb") ≡ true)
pop-IsTracked_example =
    pop-IsTracked (push (push new_queue later) older) (push new_queue later) older two-IsTracked
      older_first

push-pop_example :
    (weigh (λ (i : Item Gossip). 1) (Heap.push [] (record { value = later; priority = pos 9 })) ≡ 1)
    × ((y : Item Gossip) × (rest : _) × (Heap.pop (record { value = later; priority = pos 9 } ∷ [])
          ≡ ok (y, rest))
        × (1 ≡ 1 + weigh (λ (i : Item Gossip). 1) rest))
push-pop_example = push-pop (λ i. 1) [] (record { value = later; priority = pos 9 })
