-- ===== src/Store/Defs.antt =====
-- The interfaces of badger and of go-cache as the program uses them, and their laws.
use disgo.Prelude.{◌≡◌, ◌≢◌, Option, none, some, List}
use disgo.Prelude.Text.{Bytes}
use disgo.Types.Errors.{Error, Result, ok}
use disgo.Types.Json.{Json}
use disgo.Types.Receipt.{Receipt}
use disgo.Types.Transaction.{Transaction}
use disgo.Types.Account.{Account}
use disgo.Types.Gossip.{Gossip}
use disgo.Types.Node.{Node}
use disgo.Types.Authentication.{Authentication}
use disgo.Types.Page.{Page}

-- The bytes of a value: those of a JSON text, by its tree, or a key of another entry.
pub data Value : Type 0 where
  json : Json → Value
  text : Bytes → Value

-- What the cache holds under a key; objects are held by pointer.
pub data Cached : Type 0 where
  receipt : Receipt → Cached
  gossip : Gossip → Cached
  transaction : Transaction → Cached
  account : Account → Cached
  addresses : List Bytes → Cached
  node : Node → Cached
  authentication : Authentication → Cached
  page : Page → Cached
  text : Bytes → Cached

pub record Stores : Type 1 where
  -- badger: Txn.Get with Item.Value, Txn.Set, Txn.Delete, DB.NewTransaction, Txn.Commit, and an
  -- iterator from a key on, over the keys with a prefix
  pub Db : Type 0
  pub Txn : Type 0
  pub new_transaction : Db → Txn
  pub txn_get : Txn → Bytes → Result Value
  pub txn_set : Txn → Bytes → Value → Result Txn
  pub txn_delete : Txn → Bytes → Result Txn
  pub commit : Txn → Db → Option Error × Db
  pub iterate : Txn → Bytes → Bytes → List (Bytes × Value)
  -- go-cache: Get, Set and Delete; entries are looked at before they expire
  pub Cache : Type 0
  pub cache_get : Cache → Bytes → Option Cached
  pub cache_set : Cache → Bytes → Cached → Cache
  pub cache_delete : Cache → Bytes → Cache
  -- Items, in any order
  pub cache_items : Cache → List (Bytes × Cached)

-- What is set is read back; a transaction that commits is what the next ones see, and one that
-- does not leaves the database as it was.
pub record IsStore (s : Stores) : Type 0 where
  pub get-set_self :
      (t u : s.Txn) (k : Bytes) (v : Value) → s.txn_set t k v ≡ ok u → s.txn_get u k ≡ ok v
  pub get-set_ne :
      (t u : s.Txn) (k j : Bytes) (v : Value)
      → k ≢ j
      → s.txn_set t k v ≡ ok u
      → s.txn_get u j ≡ s.txn_get t j
  pub get-commit :
      (t : s.Txn) (d d' : s.Db) (k : Bytes)
      → s.commit t d ≡ (none, d')
      → s.txn_get (s.new_transaction d') k ≡ s.txn_get t k
  pub commit_fails : (t : s.Txn) (d d' : s.Db) (e : Error) → s.commit t d ≡ (some e, d') → d' ≡ d

pub record IsCache (s : Stores) : Type 0 where
  pub get-set_self :
      (c : s.Cache) (k : Bytes) (v : Cached) → s.cache_get (s.cache_set c k v) k ≡ some v
  pub get-set_ne :
      (c : s.Cache) (k j : Bytes) (v : Cached)
      → k ≢ j
      → s.cache_get (s.cache_set c k v) j ≡ s.cache_get c j
