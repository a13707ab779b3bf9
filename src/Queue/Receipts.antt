-- ===== src/Queue/Receipts.antt =====
-- commons/queue/receipt_queue.go: a queue of receipts, by the times of their creation.
use disgo.Prelude.{
  ◌≡◌, sym, ap, Bool, not, ◌&&◌, List, [], map, ℤ, pos, negsuc, eqb_ℤ, ltb_ℤ, mul64, sub64,
}
use disgo.Prelude.Text.{Bytes}
use disgo.Types.Errors.{Result, ok, ◌>>=◌, >>=-eq-ok, ok-injective}
use disgo.Types.Receipt.{Receipt}
use disgo.Heap
use disgo.Heap.{Item}
use disgo.Queue.{exists_in, put}

pub record ReceiptQueue : Type 0 where
  pub items : List (Item Receipt)
  pub hashes : List Bytes
  pub lock_time : ℤ

-- NewReceiptQueue
unfoldable pub new_receipt_queue : ℤ → ReceiptQueue
new_receipt_queue seconds = record { items = []; hashes = []; lock_time = mul64 seconds (pos 1000) }

-- Push: the priority is the time in nanoseconds.
unfoldable pub push_receipt : ReceiptQueue → Receipt → ReceiptQueue
push_receipt q r = record q {
  items = Heap.push q.items (record { value = r; priority = r.created });
  hashes = put q.hashes r.transaction_hash;
}

-- Pop, which asks whether the hash exists, and leaves it there.
unfoldable pub pop_receipt : ReceiptQueue → Result (Receipt × ReceiptQueue)
pop_receipt q = do (item, items) ← Heap.pop q.items; ok (item.value, record q { items = items })

-- HasAvailable, at the time `now` in milliseconds
unfoldable pub has_available_receipt : ℤ → ReceiptQueue → Bool
has_available_receipt now q =
    not (eqb_ℤ (Heap.peek q.items) (negsuc 0)) && ltb_ℤ q.lock_time (sub64 now (Heap.peek q.items))

unfoldable pub exists_receipt : ReceiptQueue → Bytes → Bool
exists_receipt q h = exists_in q.hashes h

unfoldable pub dump_receipts : ReceiptQueue → List Receipt
dump_receipts q = map (λ (x : Item Receipt). x.value) q.items

-- Whatever existed before a pop exists after it, also what is popped.
pub exists_receipt-pop :
    (q q' : ReceiptQueue) (r : Receipt) (h : Bytes)
    → pop_receipt q ≡ ok (r, q')
    → exists_receipt q' h ≡ exists_receipt q h
unfolding pop_receipt exists_receipt
exists_receipt-pop q q' r h e =
    let ((item, items), _, popped) = >>=-eq-ok (Heap.pop q.items) _ e in
    ap (λ (p : Receipt × ReceiptQueue). exists_in p.1.hashes h) (sym (ok-injective popped))
