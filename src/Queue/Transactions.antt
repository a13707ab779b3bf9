-- ===== src/Queue/Transactions.antt =====
-- commons/queue/transaction_queue.go: a queue of transactions, sorted anew after each push.
use mathlib.Core.List.{Perm}
use disgo.Prelude.{
  Bool, not, ◌&&◌, List, [], map, ℤ, pos, negsuc, eqb_ℤ, ltb_ℤ, mul64, sub64, arith,
}
use disgo.Prelude.Text.{Bytes}
use disgo.Types.Errors.{Result, ok, ◌>>=◌}
use disgo.Types.Transaction.{Transaction}
use disgo.Heap
use disgo.Heap.{Item}
use disgo.Sorting.{sort_by}
use disgo.Sorting.Order.{IsOrder, IsSorted, sort_by-IsSorted, sort_by-perm}
use disgo.Queue.{exists_in, put, delete}

pub record TransactionQueue : Type 0 where
  pub items : List (Item Transaction)
  pub hashes : List Bytes
  pub lock_time : ℤ

-- NewTransactionQueue
unfoldable pub new_transaction_queue : ℤ → TransactionQueue
new_transaction_queue seconds = record {
  items = [];
  hashes = [];
  lock_time = mul64 seconds (pos 1000);
}

-- Less, of the items themselves
unfoldable pub earlier : {A : Type 0} → Item A → Item A → Bool
earlier a b = ltb_ℤ a.priority b.priority

-- Push: heap.Push, then sort.Sort, which has nothing to do on an empty queue.
unfoldable pub push_transaction : TransactionQueue → Transaction → TransactionQueue
push_transaction q t = record q {
  items = sort_by earlier (Heap.push q.items (record { value = t; priority = t.time }));
  hashes = put q.hashes t.hash;
}

unfoldable pub pop_transaction : TransactionQueue → Result (Transaction × TransactionQueue)
pop_transaction q = do
  (item, items) ← Heap.pop q.items
  ok (item.value, record q { items = items; hashes = delete q.hashes item.value.hash })

-- HasAvailable, at the time `now` in milliseconds
unfoldable pub has_available_transaction : ℤ → TransactionQueue → Bool
has_available_transaction now q =
    not (eqb_ℤ (Heap.peek q.items) (negsuc 0)) && ltb_ℤ q.lock_time (sub64 now (Heap.peek q.items))

unfoldable pub exists_transaction : TransactionQueue → Bytes → Bool
exists_transaction q h = exists_in q.hashes h

unfoldable pub dump_transactions : TransactionQueue → List Transaction
dump_transactions q = map (λ (x : Item Transaction). x.value) q.items

earlier-IsOrder : {A : Type 0} → IsOrder (earlier {A = A})
unfolding earlier
earlier-IsOrder = record { asym = λ a b h. ground arith; trans = λ a b c h k. ground arith }

-- After a push the items stand in the order of their times.
pub push_transaction-IsSorted :
    (q : TransactionQueue) (t : Transaction)
    → IsSorted earlier (push_transaction q t).items
      × Perm
          (push_transaction q t).items
          (Heap.push q.items (record { value = t; priority = t.time }))
unfolding push_transaction
push_transaction-IsSorted q t = (sort_by-IsSorted earlier earlier-IsOrder _, sort_by-perm earlier _)
