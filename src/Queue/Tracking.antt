-- ===== src/Queue/Tracking.antt =====
-- That Exists of commons/queue/gossip_queue.go tells what is in the queue.
use mathlib.Core.Bool.{false≢true}
use disgo.Prelude.{
  eqb_ℤ, negsuc, subst, ℕ, ◌+◌, ◌≡◌, refl, sym, ap, ◌∙◌, Bool, true, false, not, ◌&&◌, List, [],
  ◌∷◌, if◌then◌else◌, arith,
}
use disgo.Prelude.Text.{Bytes, ◌=ₛ◌, =ₛ_iff, =ₛ_refl}
use disgo.Types.Errors.{ok, >>=-eq-ok, ok-injective}
use disgo.Types.Gossip.{Gossip}
use disgo.Kmutex.Exclusion.{same_test, other_test}
use disgo.Heap
use disgo.Heap.{Item}
use disgo.Heap.Weight.{weigh, push-pop, weigh-push}
use disgo.Queue.{exists_in, put, delete, Queue, exists, push, pop, has_available}

-- One for a gossip about the transaction of this hash.
abbrev pub of_hash : Bytes → Item Gossip → ℕ
of_hash h x = if x.value.transaction.hash =ₛ h then 1 else 0

-- How many gossips of the queue are about the transaction.
abbrev pub count : Queue → Bytes → ℕ
count q h = weigh (of_hash h) q.items

-- Of each transaction there is one gossip if it exists, and none otherwise.
abbrev pub IsTracked : Queue → Type 0
IsTracked q = (h : Bytes) → count q h ≡ (if exists q h then 1 else 0)

exists_in-delete :
    (l : List Bytes) (k j : Bytes) → exists_in (delete l k) j ≡ (not (k =ₛ j) && exists_in l j)
unfolding exists_in delete
exists_in-delete [] k j = ground arith
exists_in-delete (i ∷ l) k j =
    ground (arith, same_test i k j, other_test i k j, exists_in-delete l k j)

exists_same : (l : List Bytes) (k h : Bytes) → (k =ₛ h) ≡ true → exists_in l k ≡ exists_in l h
exists_same l k h e = ap (exists_in l) ((=ₛ_iff k h).0 e)

-- If the queue has one gossip of each transaction that exists and none of the others, so it has
-- after a push of a transaction that did not exist yet.
pub push-IsTracked :
    (q : Queue) (g : Gossip)
    → IsTracked q
    → exists q g.transaction.hash ≡ false
    → IsTracked (push q g)
unfolding exists push put exists_in
push-IsTracked q g tracked new h = ground (
  arith,
  weigh-push (of_hash h) q.items (record { value = g; priority = g.transaction.time }),
  tracked h,
  exists_same q.hashes g.transaction.hash h,
  new,
)

popped_weight :
    (w : Item Gossip → ℕ) (l rest : List (Item Gossip)) (y : Item Gossip)
    → Heap.pop l ≡ ok (y, rest)
    → weigh w l ≡ w y + weigh w rest
unfolding Heap.pop
popped_weight w [] rest y e = cc
popped_weight w (x ∷ l) rest y e =
    let (z, left, e', same) = (push-pop w l x).1 in
    same
    ∙ ap (λ (p : Item Gossip × List (Item Gossip)). w p.0 + weigh w p.1) (ok-injective (sym e' ∙ e))

tracked_rest :
    (n m : ℕ) (here there : Bool)
    → n ≡ (if here then 1 else 0) + m
    → n ≡ (if there then 1 else 0)
    → m ≡ (if not here && there then 1 else 0)
tracked_rest n m here there h e = ground arith

was_there : (n m : ℕ) (b : Bool) → n ≡ 1 + m → n ≡ (if b then 1 else 0) → b ≡ true
was_there n m true h e = refl
was_there n m false h e = absurd (omega arith)

-- If the queue has one gossip of each transaction that exists and none of the others, so it has
-- after a pop; and what is popped is about a transaction that existed.
pub pop-IsTracked :
    (q rest : Queue) (g : Gossip)
    → IsTracked q
    → pop q ≡ ok (g, rest)
    → IsTracked rest × (exists q g.transaction.hash ≡ true)
unfolding pop exists
pop-IsTracked q rest g tracked e =
    let ((y, items), popped, made) = >>=-eq-ok (Heap.pop q.items) _ e in
    let done : (y.value, _) ≡ (g, rest) = ok-injective made in
    let value : y.value ≡ g = ap (λ (p : Gossip × Queue). p.0) done in
    let state : record { items = items; hashes = delete q.hashes y.value.transaction.hash } ≡ rest =
      ap (λ (p : Gossip × Queue). p.1) done in
    (
      subst IsTracked state (λ h.
          tracked_rest (count q h) (weigh (of_hash h) items) (y.value.transaction.hash =ₛ h)
            (exists_in q.hashes h) (popped_weight (of_hash h) q.items items y popped) (tracked h)
          ∙ ap (λ (b : Bool). if b then 1 else 0)
              (sym (exists_in-delete q.hashes y.value.transaction.hash h))),
      subst (λ (k : Gossip). exists_in q.hashes k.transaction.hash ≡ true) value
          (was_there (count q y.value.transaction.hash) _ (exists_in q.hashes _)
            (popped_weight (of_hash y.value.transaction.hash) q.items items y popped
              ∙ ap
                  (λ (b : Bool).
                    (if b then 1 else 0) + weigh (of_hash y.value.transaction.hash) items)
                  (=ₛ_refl y.value.transaction.hash))
            (tracked y.value.transaction.hash)),
    )

available_items :
    (l : List (Item Gossip))
    → not (eqb_ℤ (Heap.peek l) (negsuc 0)) ≡ true
    → (x : Item Gossip) × (rest : List (Item Gossip)) × (l ≡ x ∷ rest)
unfolding Heap.peek
available_items [] h = absurd (false≢true h)
available_items (x ∷ rest) h = (x, rest, refl)

-- Where HasAvailable answers true, Pop returns a gossip and does not panic.
pub has_available-pop :
    (q : Queue) → has_available q ≡ true → (g : Gossip) × (rest : Queue) × (pop q ≡ ok (g, rest))
unfolding has_available pop
has_available-pop q h =
    let (x, l, e) = available_items q.items h in
    let (y, rest, popped, _) = (push-pop (λ i. 0) l x).1 in
    (
      y.value,
      record { items = rest; hashes = delete q.hashes y.value.transaction.hash },
      rw (e, popped),
    )
