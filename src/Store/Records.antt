-- ===== src/Store/Records.antt =====
-- How the types persist, cache and load themselves: the methods Key, Cache, Persist, Set and Unset
-- and the functions To…FromCache and To…ByKey of commons/types.
pub mod Transactions
pub mod Entries
pub mod Names
pub mod Nodes
pub mod Pages
pub mod Authenticity
use disgo.Prelude.{ℕ, Bool, true, false, Option, none, some, List, [], ◌∷◌, ◌++◌, ℤ, if◌then◌else◌}
use disgo.Prelude.Text.{Bytes, codes}
use disgo.Crypto.{External}
use disgo.Types.Errors.{Error, Result, ok, err, panic, ◌>>=◌, not_found, not_an_object}
use disgo.Types.Json.{Json}
use disgo.Types.Receipt
use disgo.Types.Receipt.{Receipt}
use disgo.Types.Account
use disgo.Types.Account.{Account}
use disgo.Types.Gossip
use disgo.Types.Gossip.{Gossip, has_address}
use disgo.Store.Defs.{Value, json, text, Cached, Stores}

-- json.Unmarshal of what an entry holds: a bare key is no JSON.
abbrev pub decode : {A : Type 0} → (Json → Result A) → Value → Result A
decode f (json j) = f j
decode f (text k) = err not_an_object

-- `if err == nil`: an error is dropped, a panic is not.
abbrev pub attempt : {A : Type 0} → Result A → Result (Option A)
attempt (ok a) = ok (some a)
attempt (err e) = ok none
attempt panic = panic

module _ (s : Stores) where
  -- Receipt.Cache, Gossip.Cache and Account.Cache
  unfoldable pub cache_receipt : Receipt → s.Cache → s.Cache
  cache_receipt r c = s.cache_set c (Receipt.key r.transaction_hash) (Cached.receipt r)

  unfoldable pub cache_gossip : Gossip → s.Cache → s.Cache
  cache_gossip g c = s.cache_set c (Gossip.key g.transaction.hash) (Cached.gossip g)

  unfoldable pub cache_account : Account → s.Cache → s.Cache
  cache_account a c = s.cache_set c (Account.key a.address) (Cached.account a)

  abbrev as_receipt : Option Cached → Result Receipt
  as_receipt none = err not_found
  as_receipt (some (Cached.receipt r)) = ok r
  as_receipt (some _) = panic

  -- ToReceiptFromCache
  unfoldable pub to_receipt_from_cache : s.Cache → Bytes → Result Receipt
  to_receipt_from_cache c hash = as_receipt (s.cache_get c (Receipt.key hash))

  abbrev as_gossip : Option Cached → Result Gossip
  as_gossip none = err not_found
  as_gossip (some (Cached.gossip g)) = ok g
  as_gossip (some _) = panic

  -- ToGossipFromCache
  unfoldable pub to_gossip_from_cache : s.Cache → Bytes → Result Gossip
  to_gossip_from_cache c hash = as_gossip (s.cache_get c (Gossip.key hash))

  abbrev as_account : Option Cached → Result Account
  as_account none = err not_found
  as_account (some (Cached.account a)) = ok a
  as_account (some _) = panic

  -- ToAccountFromCache
  unfoldable pub to_account_from_cache : s.Cache → Bytes → Result Account
  to_account_from_cache c address = as_account (s.cache_get c (Account.key address))

  abbrev sent_to : Bytes → Option Cached → Result Bool
  sent_to address none = ok false
  sent_to address (some (Cached.addresses l)) = ok (has_address l address)
  sent_to address (some _) = panic

  -- HaveSent
  unfoldable pub have_sent : s.Cache → Bytes → Bytes → Result Bool
  have_sent c hash address = sent_to address (s.cache_get c (Gossip.rumor_key hash))

  abbrev pub with_sent : Bytes → Option Cached → Result (List Bytes)
  with_sent address none = ok (address ∷ [])
  with_sent address (some (Cached.addresses l)) = ok (l ++ address ∷ [])
  with_sent address (some _) = panic

  -- CacheSentDelegate
  unfoldable pub cache_sent_delegate : Bytes → Bytes → s.Cache → Result s.Cache
  cache_sent_delegate hash address c = do
    l ← with_sent address (s.cache_get c (Gossip.rumor_key hash))
    ok (s.cache_set c (Gossip.rumor_key hash) (Cached.addresses l))

module _ (s : Stores) (x : External) where
  -- Receipt.Persist
  unfoldable pub persist_receipt : Receipt → s.Txn → Result s.Txn
  persist_receipt r txn =
      s.txn_set txn (Receipt.key r.transaction_hash) (json (Receipt.marshal x r))

  -- Gossip.Persist
  unfoldable pub persist_gossip : Gossip → s.Txn → Result s.Txn
  persist_gossip g txn = s.txn_set txn (Gossip.key g.transaction.hash) (json (Gossip.marshal x g))

  -- Account.Persist: the account under its key, and that key under the one of its name.
  unfoldable pub persist_account : Account → s.Txn → Result s.Txn
  persist_account a txn = do
    j ← Account.marshal x a
    txn' ← s.txn_set txn (Account.key a.address) (json j)
    s.txn_set txn' (Account.name_key a.name) (text (Account.key a.address))

  -- ToAccountByAddress
  unfoldable pub to_account_by_address : s.Txn → Bytes → Result Account
  to_account_by_address txn address = do
    v ← s.txn_get txn (Account.key address)
    decode (Account.from_json x) v

  -- A key as text; the entries of names hold nothing else, and a JSON text would be no address.
  bytes_of : Value → Bytes
  bytes_of (text k) = k
  bytes_of (json j) = []

  -- ToAccountByName: what the entry of the name holds is taken for an address.
  unfoldable pub to_account_by_name : s.Txn → Bytes → Result Account
  unfolding bytes_of
  to_account_by_name txn name = do
    v ← s.txn_get txn (codes "key-account-name-" ++ name)
    to_account_by_address txn (bytes_of v)

  -- ToReceiptFromKey
  unfoldable pub to_receipt_from_key : s.Txn → Bytes → Result Receipt
  to_receipt_from_key txn key = do v ← s.txn_get txn key; decode (Receipt.from_json x) v

  -- ToGossipByKey, and ToGossipByTransactionHash
  unfoldable pub to_gossip_by_key : ℤ → s.Txn → Bytes → Result Gossip
  to_gossip_by_key now txn key = do v ← s.txn_get txn key; decode (Gossip.from_json x now) v

  unfoldable pub to_gossip_by_transaction_hash : ℤ → s.Txn → Bytes → Result Gossip
  unfolding to_gossip_by_key
  to_gossip_by_transaction_hash now txn hash = to_gossip_by_key now txn (Gossip.key hash)

  -- Receipt.Set and Gossip.Set: the cache first, whatever becomes of the transaction.
  unfoldable pub set_receipt : Receipt → s.Txn → s.Cache → s.Cache × Result s.Txn
  set_receipt r txn c = (cache_receipt s r c, persist_receipt r txn)

  unfoldable pub set_gossip : Gossip → s.Txn → s.Cache → s.Cache × Result s.Txn
  set_gossip g txn c = (cache_gossip s g c, persist_gossip g txn)

  unfoldable pub set_account : Account → s.Txn → s.Cache → s.Cache × Result s.Txn
  set_account a txn c = (cache_account s a c, persist_account a txn)

  -- Receipt.Unset and Gossip.Unset
  unfoldable pub unset_receipt : Receipt → s.Txn → s.Cache → s.Cache × Result s.Txn
  unset_receipt r txn c = (
    s.cache_delete c (Receipt.key r.transaction_hash),
    s.txn_delete txn (Receipt.key r.transaction_hash),
  )

  unfoldable pub unset_gossip : Gossip → s.Txn → s.Cache → s.Cache × Result s.Txn
  unset_gossip g txn c = (
    s.cache_delete c (Gossip.key g.transaction.hash),
    s.txn_delete txn (Gossip.key g.transaction.hash),
  )

  -- txn.Commit after a Set whose error is only logged.
  unfoldable pub commit_after : s.Db → Result s.Txn → s.Db
  commit_after db (ok txn) = (s.commit txn db).1
  commit_after db _ = (s.commit (s.new_transaction db) db).1

  -- The end of SetStatusWithNewTransaction and SetInternalErrorWithNewTransaction, for a receipt
  -- whose status has been set: a transaction of its own.
  unfoldable pub save_receipt : Receipt → s.Db → s.Db
  unfolding commit_after persist_receipt
  save_receipt r db = commit_after db (persist_receipt r (s.new_transaction db))
