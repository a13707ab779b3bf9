-- ===== src/Queue.antt =====
-- commons/queue/gossip_queue.go and exists_map.go: the queue of gossip, a heap by the times of the
-- transactions with a map of their hashes. HeapPush and HeapPop (thread_safe_queue.go) hand the
-- operation to one goroutine, so that operations come one after the other.
pub mod Tracking
pub mod Transactions
pub mod Receipts
mod Tests
use disgo.Prelude.{Bool, true, false, not, List, [], ◌∷◌, map, ℤ, negsuc, eqb_ℤ, if◌then◌else◌}
use disgo.Prelude.Text.{Bytes, ◌=ₛ◌}
use disgo.Types.Errors.{Result, ok, ◌>>=◌}
use disgo.Types.Gossip.{Gossip}
use disgo.Heap
use disgo.Heap.{Item}
use disgo.Dapos.Gossip.{GossipQueue}

-- ExistsMap's Exists, Put and Delete
unfoldable pub exists_in : List Bytes → Bytes → Bool
exists_in [] h = false
exists_in (j ∷ l) h = if j =ₛ h then true else exists_in l h

unfoldable pub put : List Bytes → Bytes → List Bytes
put l h = h ∷ l

unfoldable pub delete : List Bytes → Bytes → List Bytes
delete [] h = []
delete (j ∷ l) h = let rest = delete l h in if j =ₛ h then rest else j ∷ rest

pub record Queue : Type 0 where
  pub items : List (Item Gossip)
  pub hashes : List Bytes

-- NewGossipQueue
abbrev pub new_queue : Queue
new_queue = record { items = []; hashes = [] }

unfoldable pub exists : Queue → Bytes → Bool
exists q h = exists_in q.hashes h

unfoldable pub push : Queue → Gossip → Queue
push q g = record {
  hashes = put q.hashes g.transaction.hash;
  items = Heap.push q.items (record { value = g; priority = g.transaction.time });
}

unfoldable pub pop : Queue → Result (Gossip × Queue)
pop q = do
  (item, items) ← Heap.pop q.items
  ok (item.value, record { items = items; hashes = delete q.hashes item.value.transaction.hash })

-- HasAvailable
unfoldable pub has_available : Queue → Bool
has_available q = not (eqb_ℤ (Heap.peek q.items) (negsuc 0))

-- Dump
unfoldable pub dump : Queue → List Gossip
dump q = map (λ (x : Item Gossip). x.value) q.items

-- The queue as the gossip worker uses it.
abbrev pub gossip_queue : GossipQueue
gossip_queue = record {
  Queue = Queue;
  exists = exists;
  push = push;
  pop = pop;
  has_available = has_available;
}
