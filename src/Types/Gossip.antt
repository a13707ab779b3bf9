-- ===== src/Types/Gossip.antt =====
-- commons/types/gossip.go: a transaction with the rumors about it.
use disgo.Prelude.{
  ℕ, ◌+◌, Bool, true, false, Option, none, some, List, [], ◌∷◌, ◌++◌, ℤ, if◌then◌else◌,
}
use disgo.Prelude.Text.{Bytes, codes, ◌=ₛ◌}
use disgo.Crypto.{External}
use disgo.Types.Errors.{Result, ok, err, ◌>>=◌, not_an_object}
use disgo.Types.Json.{Json, null, arr, obj, end, Items, nil, cons, put, find, as_map}
use disgo.Types.Rumor
use disgo.Types.Rumor.{Rumor}
use disgo.Types.Transaction
use disgo.Types.Transaction.{Transaction}

pub record Gossip : Type 0 where
  pub transaction : Transaction
  pub rumors : List Rumor

-- NewGossip
unfoldable pub new_gossip : Transaction → Gossip
new_gossip t = record { transaction = t; rumors = [] }

-- Key, of the hash of the transaction
unfoldable pub key : Bytes → Bytes
key transaction_hash = codes "table-gossip-" ++ transaction_hash

-- RumorKey
unfoldable pub rumor_key : Bytes → Bytes
rumor_key transaction_hash = codes "cache-rumor-" ++ transaction_hash

-- The loop of ContainsRumor.
unfoldable pub has_rumor : List Rumor → Bytes → Bool
has_rumor [] address = false
has_rumor (r ∷ rs) address = if r.address =ₛ address then true else has_rumor rs address

-- ContainsRumor
unfoldable pub contains_rumor : Gossip → Bytes → Bool
unfolding has_rumor
contains_rumor g address = has_rumor g.rumors address

-- The loop of HaveSent over the addresses of the cache.
unfoldable pub has_address : List Bytes → Bytes → Bool
has_address [] address = false
has_address (a ∷ l) address = if a =ₛ address then true else has_address l address

rumor_items : List Rumor → Items
rumor_items [] = nil
rumor_items (r ∷ rs) = cons (Rumor.marshal r) (rumor_items rs)

rumors_from : Items → Result (List Rumor)
rumors_from nil = ok []
rumors_from (cons j items) = do r ← Rumor.from_json j; rs ← rumors_from items; ok (r ∷ rs)

read_rumors : Option Json → Result (List Rumor)
unfolding rumors_from
read_rumors none = ok []
read_rumors (some null) = ok []
read_rumors (some (arr items)) = rumors_from items
read_rumors (some _) = err not_an_object

module _ (x : External) where
  -- ValidRumors
  unfoldable pub valid_rumors : List Rumor → ℕ
  valid_rumors [] = 0
  valid_rumors (r ∷ rs) = let n = valid_rumors rs in if Rumor.verify x r then n + 1 else n

  -- json.Marshal, by the names of the fields
  unfoldable pub marshal : Gossip → Json
  unfolding rumor_items
  marshal g = obj (
      put false (codes "Transaction") (Transaction.marshal x g.transaction)
        (put false (codes "Rumors") (arr (rumor_items g.rumors)) end))

  read_transaction : ℤ → Option Json → Result Transaction
  read_transaction now none = ok Transaction.empty
  read_transaction now (some j) = Transaction.from_json x now j

  -- ToGossipFromJson
  unfoldable pub from_json : ℤ → Json → Result Gossip
  unfolding read_transaction read_rumors
  from_json now j = do
    m ← as_map j
    transaction ← read_transaction now (find (codes "Transaction") m)
    rumors ← read_rumors (find (codes "Rumors") m)
    ok (record { transaction = transaction; rumors = rumors })
