-- ===== src/Store/Records/Transactions.antt =====
-- Key, TypeKey, TimeKey, FromKey, ToKey, Cache, Persist and Set of commons/types/transaction.go, and
-- how a transaction is loaded, from the database or from the cache.
use disgo.Prelude.{true, false, Option, none, some, ◌∷◌, ◌++◌, ℤ, pos}
use disgo.Prelude.Text.{Bytes, codes, decimal, hex_decode}
use disgo.Crypto.{External}
use disgo.Types.Errors.{Result, ok, err, panic, ◌>>=◌, not_found}
use disgo.Types.Receipt.{Receipt, is_empty}
use disgo.Types.Account.{Account}
use disgo.Types.Gossip.{Gossip}
use disgo.Types.Transaction
use disgo.Types.Transaction.{Transaction}
use disgo.Store.Defs.{json, text, Cached, Stores}
use disgo.Store.Records.{
  decode, attempt, to_receipt_from_cache, to_account_by_address, to_receipt_from_key,
  to_gossip_by_transaction_hash,
}

-- Key, of the hash
unfoldable pub key : Bytes → Bytes
key hash = codes "table-transaction-" ++ hash

unfoldable pub type_key : Transaction → Bytes
type_key t =
    codes "key-transaction-type-"
    ++ (decimal (pos t.type) ++ (b'-' ∷ (decimal t.time ++ (b'-' ∷ t.hash))))

unfoldable pub time_key : Transaction → Bytes
time_key t = codes "key-transaction-time-" ++ (decimal t.time ++ (b'-' ∷ t.hash))

unfoldable pub from_key : Transaction → Bytes
from_key t = codes "key-transaction-from-" ++ (t.from ++ (b'-' ∷ decimal t.time))

unfoldable pub to_key : Transaction → Bytes
to_key t = codes "key-transaction-to-" ++ (t.to ++ (b'-' ∷ decimal t.time))

module _ (s : Stores) (x : External) where
  -- Cache
  unfoldable pub cache_transaction : Transaction → s.Cache → s.Cache
  cache_transaction t c = s.cache_set c (key t.hash) (Cached.transaction t)

  -- Persist: the transaction under its key, and its key under the four index keys.
  unfoldable pub persist_transaction : Transaction → s.Txn → Result s.Txn
  persist_transaction t txn = do
    txn₁ ← s.txn_set txn (key t.hash) (json (Transaction.marshal x t))
    txn₂ ← s.txn_set txn₁ (type_key t) (text (key t.hash))
    txn₃ ← s.txn_set txn₂ (time_key t) (text (key t.hash))
    txn₄ ← s.txn_set txn₃ (from_key t) (text (key t.hash))
    s.txn_set txn₄ (to_key t) (text (key t.hash))

  -- Set
  unfoldable pub set_transaction : Transaction → s.Txn → s.Cache → s.Cache × Result s.Txn
  unfolding cache_transaction persist_transaction
  set_transaction t txn c = (cache_transaction t c, persist_transaction t txn)

  abbrev as_transaction : Option Cached → Result Transaction
  as_transaction none = err not_found
  as_transaction (some (Cached.transaction t)) = ok t
  as_transaction (some _) = panic

  abbrev with_receipt : Transaction → Option Receipt → Transaction
  with_receipt t none = t
  with_receipt t (some r) = record t { receipt = r }

  -- ToTransactionFromCache, with the receipt that the cache has
  unfoldable pub to_transaction_from_cache : s.Cache → Bytes → Result Transaction
  to_transaction_from_cache c hash = do
    t ← as_transaction (s.cache_get c (key hash))
    r ← attempt (to_receipt_from_cache s c t.hash)
    ok (with_receipt t r)

  abbrev name_or : Bytes → Option Account → Bytes
  name_or old none = old
  name_or old (some a) = a.name

  abbrev rumors_or : Transaction → Option Gossip → Transaction
  rumors_or t none = t
  rumors_or t (some g) = record t { gossip = g.rumors }

  abbrev abi_or : Transaction → Option Bytes → Transaction
  abi_or t none = t
  abi_or t (some abi) = record t { abi = abi }

  -- setTransients
  unfoldable pub set_transients : ℤ → s.Txn → Transaction → Result Transaction
  set_transients now txn t = do
    from ← attempt (to_account_by_address s x txn t.from)
    to ← attempt (to_account_by_address s x txn t.to)
    r ← attempt (to_receipt_from_key s x txn (codes "table-receipt-" ++ t.hash))
    g ← attempt (to_gossip_by_transaction_hash s x now txn t.hash)
    let named = record t { from_name = name_or t.from_name from; to_name = name_or t.to_name to }
    ok (abi_or (rumors_or (with_receipt named r) g) (hex_decode t.abi))

  -- ToTransactionByKey, and ToTransactionByHash
  unfoldable pub to_transaction_by_key : ℤ → s.Txn → Bytes → Result Transaction
  to_transaction_by_key now txn k = do
    v ← s.txn_get txn k
    t ← decode (Transaction.from_json x now) v
    set_transients now txn t

  unfoldable pub to_transaction_by_hash : ℤ → s.Txn → Bytes → Result Transaction
  unfolding to_transaction_by_key
  to_transaction_by_hash now txn hash = to_transaction_by_key now txn (key hash)

  -- ToTransactionByAddress: the transaction that deployed the contract, without its transients.
  unfoldable pub to_transaction_by_address : ℤ → s.Txn → Bytes → Result Transaction
  to_transaction_by_address now txn address = do
    a ← to_account_by_address s x txn address
    elim (is_empty a.transaction_hash) [
      | true ↦ err not_found
      | false ↦ do
        v ← s.txn_get txn (key a.transaction_hash)
        decode (Transaction.from_json x now) v
    ]
