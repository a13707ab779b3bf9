-- ===== src/Dapos/Synchronize.antt =====
-- How a delegate copies the database of another one when it starts: SynchronizeGrpc and
-- peerSynchronize of dapos/dapos_transport_grpc.go.
pub mod Served
pub mod Copy
use disgo.Prelude.{
  ℕ, zero, suc, Bool, true, false, ◌||◌, Option, none, some, List, [], ◌∷◌, ℤ, pos, ltb_ℤ, ◌==◌,
  add64, length, if◌then◌else◌,
}
use disgo.Prelude.Text.{Bytes, codes, has_prefix, ◌=ₛ◌}
use disgo.Types.Endpoint.{Endpoint}
use disgo.Types.Errors.{Error, Result, ok, err, panic, ◌>>=◌}
use disgo.Types.Node.{Node}
use disgo.Disgover.Seed.{type_delegate}
use disgo.Store.{Value, Stores}
use disgo.Store.Records.Nodes.{to_nodes_by_type_from_cache}

abbrev pub Item : Type 0
Item = Bytes × Value

-- The keys that are copied.
unfoldable pub is_shared : Bytes → Bool
is_shared k =
    has_prefix (codes "table-") k
    || has_prefix (codes "key-") k
    || has_prefix (codes "AccountState-") k

-- The loop of SynchronizeGrpc: of the keys that are copied, those from the index on, up to fifty. `i`
-- counts the keys, and `n` the items.
unfoldable pub gather : ℤ → ℕ → ℕ → List Item → List Item
gather index i n [] = []
gather index i n ((k, v) ∷ items) = elim (is_shared k) [
  | false ↦ gather index i n items
  | true ↦ elim (ltb_ℤ (pos i) index) [
    | true ↦ gather index (suc i) n items
    | false ↦ (k, v) ∷ elim (suc n == 50) [ true ↦ [] | false ↦ gather index (suc i) (suc n) items ]
  ]
]

module _ (s : Stores) where
  -- SynchronizeGrpc: the items of an index
  unfoldable pub synchronize_grpc : s.Db → ℤ → List Item
  synchronize_grpc db index = gather index 0 0 (s.iterate (s.new_transaction db) [] [])

  unfoldable pub set_or_skip : s.Txn → Result s.Txn → Result s.Txn
  set_or_skip txn (ok u) = ok u
  set_or_skip txn (err e) = ok txn
  set_or_skip txn panic = panic

  -- The loop over the items of a response; an item that cannot be set is left out.
  unfoldable pub set_items : List Item → s.Txn → Result s.Txn
  unfolding set_or_skip
  set_items [] txn = ok txn
  set_items ((k, v) ∷ items) txn = do
    txn' ← set_or_skip txn (s.txn_set txn k v)
    set_items items txn'

-- What the calls to a peer answer: the number of the call, its index, and the items.
abbrev pub Remote : Type 0
Remote = ℕ → ℤ → Result (List Item)

module _ (s : Stores) (ask : Remote) where
  -- The rounds of peerSynchronize with one delegate, on fuel: a call that fails is made again, and a
  -- response without items is the last one. None is a loop that has not come to an end.
  unfoldable pub rounds : ℕ → ℕ → ℤ → s.Db → Result (Option (ℤ × s.Db))
  rounds zero call index db = ok none
  rounds (suc fuel) call index db = elim (ask call index) [
    | ok items ↦ elim items [
      | [] ↦ ok (some (index, db))
      | i ∷ rest ↦ set_items s (i ∷ rest) (s.new_transaction db) >>= λ txn.
          rounds fuel (suc call) (add64 index (pos (length (i ∷ rest)))) (s.commit txn db).1
    ]
    | err e ↦ rounds fuel (suc call) index db
    | panic ↦ panic
  ]

module _ (s : Stores) (dial : Node → Option Error) (ask : Node → Remote) (me : Bytes) (fuel : ℕ)
    (db : s.Db) where
  with_connection : Node → Option Error → Result (Option s.Db) → Result (Option s.Db)
  with_connection n (some e) next = next
  with_connection n none next = do
    done ← rounds s (ask n) fuel 0 (pos 0) db
    ok (elim done [ none ↦ none | some (index, d) ↦ some d ])

  dialled : Node → Option Endpoint → Result (Option s.Db) → Result (Option s.Db)
  unfolding with_connection
  dialled n none next = panic
  dialled n (some e) next = with_connection n (dial n) next

  -- The loop over the delegates: the first that is another node and can be dialled is the only one
  -- that is copied from.
  unfoldable pub with_delegates : List Node → Result (Option s.Db)
  unfolding dialled
  with_delegates [] = ok (some db)
  with_delegates (n ∷ nodes) =
      let next = with_delegates nodes in
      if n.address =ₛ me then next else dialled n n.grpc_endpoint next

  copied : Result (List Node) → Result (Option s.Db)
  copied (ok nodes) = with_delegates nodes
  copied (err e) = ok (some db)
  copied panic = panic

  -- peerSynchronize
  unfoldable pub peer_synchronize : s.Cache → Result (Option s.Db)
  unfolding copied
  peer_synchronize c = copied (to_nodes_by_type_from_cache s c type_delegate)
