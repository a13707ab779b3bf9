-- ===== src/Dapos/Genesis.antt =====
-- createGenesisTransactionAndAccount of dapos/dapos_service.go: the first transaction of the network,
-- and the account that has everything.
pub mod Minted
use disgo.Prelude.{ℕ, Option, none, some, ℤ}
use disgo.Prelude.Text.{Bytes, codes}
use disgo.Crypto.{External}
use disgo.Types.Account
use disgo.Types.Account.{Account}
use disgo.Types.Errors.{Error, Result, ok, err, panic, key_not_found}
use disgo.Types.Json.{Json}
use disgo.Types.Transaction
use disgo.Types.Transaction.{Transaction}
use disgo.Store.{Stores}
use disgo.Store.Records.{set_account}
use disgo.Store.Records.Transactions.{key, set_transaction, to_transaction_by_key}
use disgo.Dapos.Peers.{Moment}

abbrev pub genesis_account : Transaction → ℤ → Account
genesis_account t now = record Account.empty {
  address = t.to;
  name = codes "Dispatch Labs";
  balance = some t.value;
  updated = now;
  created = now;
}

module _ (s : Stores) (x : External) (now : Moment) (db : s.Db) where
  -- What is returned: the error, the database, and the cache.
  abbrev pub Created : Type 0
  Created = Option Error × s.Db × s.Cache

  unfoldable pub finish : s.Txn → s.Cache → Created
  finish txn c = let (e, db') = s.commit txn db in (e, db', c)

  unfoldable pub account_set : s.Cache × Result s.Txn → Result Created
  unfolding finish
  account_set (c, ok txn) = ok (finish txn c)
  account_set (c, err e) = ok (some e, db, c)
  account_set (c, panic) = panic

  unfoldable pub transaction_set : Transaction → s.Cache × Result s.Txn → Result Created
  unfolding account_set
  transaction_set t (c, ok txn) = account_set (set_account s x (genesis_account t now.nanos) txn c)
  transaction_set t (c, err e) = ok (some e, db, c)
  transaction_set t (c, panic) = panic

  -- An error other than a key that is not found is passed over.
  unfoldable pub unless_there : Transaction → s.Cache → Result Transaction → Result Created
  unfolding transaction_set
  unless_there t c (err key_not_found) =
      transaction_set t (set_transaction s x t (s.new_transaction db) c)
  unless_there t c (err _) = ok (finish (s.new_transaction db) c)
  unless_there t c (ok u) = ok (finish (s.new_transaction db) c)
  unless_there t c panic = panic

  unfoldable pub parsed : s.Cache → Result Transaction → Result Created
  unfolding unless_there
  parsed c (ok t) =
      unless_there t c (to_transaction_by_key s x now.millis (s.new_transaction db) (key t.hash))
  parsed c (err e) = ok (some e, db, c)
  parsed c panic = panic

  -- createGenesisTransactionAndAccount, with the configuration's genesis transaction
  unfoldable pub create_genesis : Json → s.Cache → Result Created
  unfolding parsed
  create_genesis genesis c = parsed c (Transaction.from_json x now.millis genesis)
