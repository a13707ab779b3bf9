-- ===== src/Dapos/Tests.antt =====
-- Concrete runs of dapos/dapos_handshake.go, on which the theorems apply.
mod Consensus
mod Api
mod Synchronize
mod Genesis
mod Steps
use mathlib.Core.Bool.{false≢true}
use disgo.Prelude.{
  List, ◌++◌, wrap64, arith, ◌≡◌, refl, sym, ap, ◌∙◌, ◌≢◌, ◌⊎◌, inl, inr, Bool, true, false,
  Bool-cases, some, none, [], ◌∷◌, pos, ◌+ℤ◌, ◌≤ℤ◌,
}
use disgo.Prelude.Text.{Bytes, codes, ◌=ₛ◌, =ₛ_iff, append_cancel}
use disgo.Crypto.Toy.{toy}
use disgo.Types.Errors.{Result, ok, err, ok-injective, key_not_found}
use disgo.Types.Json.{nil, Json, obj}
use disgo.Types.Receipt.{Receipt}
use disgo.Types.Receipt
use disgo.Types.Account.{Account}
use disgo.Types.Account
use disgo.Types.Account.RoundTrip.{ParsesTimes, from_json-marshal_account}
use disgo.Types.Gossip.{new_gossip}
use disgo.Types.Transaction.{Transaction}
use disgo.Types.Transaction
use disgo.Store.{Value, assoc_stores, assoc_IsStore, lookup}
use disgo.Store.Records.{to_account_by_address, to_account_by_name, persist_account}
use disgo.Store.Records.Names.{to_account_by_name-persist_account}
use disgo.Dapos.Ledger.Indexed.{execute_transaction-IsIndexed}
use disgo.Store.Records.Transactions.{key}
use disgo.Dapos.Run.{State}
use disgo.Dapos.Dvm.{Dvm, DvmResult}
use disgo.Dapos.Execute.{execute_transaction}
use disgo.Dapos.Execute.Success.{IsReliable}
use disgo.Dapos.Execute.Transfer.{Untouched}
use disgo.Dapos.Ledger.{ledger, pay, IsFunded, IsIndexed, balance_of}
use disgo.Dapos.Ledger.Refinement.{
  execute_transaction-funded, execute_transaction-pay, execute_transaction-once,
}

-- A virtual machine that refuses everything.
abbrev no_result : DvmResult
no_result = record {
  contract_address = [];
  abi = [];
  contract_method = [];
  contract_method_exec_error = some key_not_found;
  contract_method_exec_result = [];
  state_objects = [];
}

abbrev pub no_dvm : Dvm assoc_stores
no_dvm = record {
  deploy = λ t db. (no_result, some key_not_found, db);
  execute = λ t db. (no_result, some key_not_found, db);
  converted_params = λ t. err key_not_found;
  abi_error = λ b. none;
  has_method = λ b m. false;
  unpack_values = λ b m r. ok nil;
}

pub reliable : IsReliable assoc_stores
reliable = record { set_ok = λ t k v. ((k, v) ∷ t, refl); commit_ok = λ t d. (t, refl) }

pub times : ParsesTimes toy
times t = (pos 0, refl)

abbrev alice : Bytes
alice = codes "aa"

abbrev bob : Bytes
bob = codes "bb"

abbrev rich : Account
rich = record Account.empty { address = alice; name = codes "Alice"; balance = some (pos 100) }

abbrev rich_form : Json
rich_form = obj (Account.json_fields toy rich (pos 100))

-- A database with one account.
abbrev start : State assoc_stores
start = record { db = (Account.key alice, Value.json rich_form) ∷ []; cache = [] }

abbrev payment : Transaction
payment = record Transaction.empty {
  hash = codes "0f";
  from = alice;
  to = bob;
  value = pos 30;
  time = pos 1000;
}

-- What is read where the key is or is not the one of the entry.
abbrev read_if : Bool → Result Account
read_if true = Account.from_json toy rich_form
read_if false = err key_not_found

rich_read : Account.from_json toy rich_form ≡ ok rich
unfolding Account.marshal Account.int64_of wrap64
rich_read =
    from_json-marshal_account toy rich (pos 100) refl (omega arith, omega arith)
      (record { nonce = omega arith; updated = refl; created = refl })

alice_has : ledger assoc_stores toy start.db alice ≡ ok (pos 100)
unfolding ledger balance_of to_account_by_address lookup Account.key Account.int64_of wrap64
alice_has = ap balance_of rich_read

bob_has : ledger assoc_stores toy start.db bob ≡ ok (pos 0)
unfolding ledger balance_of to_account_by_address lookup Account.key
bob_has = refl

read_at :
    (a : Bytes)
    → to_account_by_address assoc_stores toy start.db a
      ≡ read_if (Account.key alice =ₛ Account.key a)
unfolding to_account_by_address lookup
read_at a = elim (Bool-cases (Account.key alice =ₛ Account.key a)) [
  | inl e ↦ rw e refl
  | inr e ↦ rw e refl
]

own_address :
    (a : Bytes) (c : Account) (b : Bool)
    → (Account.key alice =ₛ Account.key a) ≡ b
    → read_if b ≡ ok c
    → c.address ≡ a
unfolding Account.key
own_address a c false h e = cc
own_address a c true h e =
    ap (λ (d : Account). d.address) (ok-injective (sym e ∙ rich_read))
    ∙ append_cancel (codes "table-account-") alice a ((=ₛ_iff _ (Account.key a)).0 h)

indexed : IsIndexed assoc_stores toy start.db
indexed a c e = own_address a c _ refl (sym (read_at a) ∙ e)

not_executed : assoc_stores.txn_get start.db (key payment.hash) ≡ err key_not_found
unfolding lookup key Account.key
not_executed = refl

alice_ne_bob : alice ≢ bob
alice_ne_bob e = false≢true (ap (λ (t : Bytes). t =ₛ bob) e)

abbrev receipt : Receipt
receipt = Receipt.new_receipt payment.hash (pos 2)

funded : IsFunded (pos 100) (pos 0) payment.value
unfolding ◌+ℤ◌
funded = (omega arith, omega arith, omega arith, omega arith)

execute_transaction-funded_example :
    (st' : State assoc_stores) × (execute_transaction assoc_stores toy no_dvm
        (pos 5)
        (pos 1)
        payment
        receipt
        (new_gossip payment)
        start
      ≡ ok st')
    × (ledger assoc_stores toy st'.db ≡ pay alice bob (pos 30) (ledger assoc_stores toy start.db))
execute_transaction-funded_example =
    execute_transaction-funded assoc_stores toy no_dvm (pos 5) (pos 1) payment receipt
      (new_gossip payment) start key_not_found (pos 100) (pos 0) assoc_IsStore reliable times
      indexed not_executed refl alice_ne_bob alice_has bob_has funded (omega arith)

-- The state that the payment ends in.
ended :
    (st' : State assoc_stores) × (execute_transaction assoc_stores toy no_dvm
        (pos 5)
        (pos 1)
        payment
        receipt
        (new_gossip payment)
        start
      ≡ ok st')
ended =
    let (st', done, _) =
      execute_transaction-funded assoc_stores toy no_dvm (pos 5) (pos 1) payment receipt
        (new_gossip payment) start key_not_found (pos 100) (pos 0) assoc_IsStore reliable times
        indexed not_executed refl alice_ne_bob alice_has bob_has funded (omega arith) in
    (st', done)

execute_transaction-pay_example :
    (ledger assoc_stores toy ended.0.db ≡ ledger assoc_stores toy start.db)
    ⊎ ((pos 30 ≤ℤ pos 100)
        × (ledger assoc_stores toy ended.0.db
            ≡ pay alice bob (pos 30) (ledger assoc_stores toy start.db)))
execute_transaction-pay_example =
    execute_transaction-pay assoc_stores toy no_dvm (pos 5) (pos 1) payment receipt
      (new_gossip payment) start ended.0 (pos 100) (pos 0) assoc_IsStore times indexed refl
      alice_ne_bob alice_has bob_has funded ended.1

execute_transaction-once_example :
    Untouched assoc_stores toy start.db ended.0.db
    ⊎ (execute_transaction assoc_stores toy no_dvm
          (pos 9)
          (pos 2)
          payment
          receipt
          (new_gossip payment)
          ended.0
        ≡ ok ended.0)
execute_transaction-once_example =
    execute_transaction-once assoc_stores toy no_dvm (pos 5) (pos 1) (pos 9) (pos 2) payment payment
      receipt receipt (new_gossip payment) (new_gossip payment) start ended.0 assoc_IsStore refl
      refl ended.1

execute_transaction-IsIndexed_example : IsIndexed assoc_stores toy ended.0.db
execute_transaction-IsIndexed_example =
    execute_transaction-IsIndexed assoc_stores toy no_dvm (pos 5) (pos 1) payment receipt
      (new_gossip payment) start ended.0 assoc_IsStore indexed refl alice_ne_bob ended.1

-- Alice, persisted under her name in lower case.
persisted : (u : List (Bytes × Value)) × (persist_account assoc_stores toy rich [] ≡ ok u)
unfolding persist_account Account.marshal Account.int64_of
persisted = (_, refl)

alice_key : codes "key-account-name-" ++ codes "alice" ≡ Account.name_key (codes "Alice")
unfolding Account.name_key
alice_key = refl

to_account_by_name-persist_account_example :
    to_account_by_name assoc_stores toy persisted.0 (codes "alice")
    ≡ to_account_by_address assoc_stores toy persisted.0 (Account.key alice)
to_account_by_name-persist_account_example =
    to_account_by_name-persist_account assoc_stores toy assoc_IsStore rich (codes "alice") []
      persisted.0 alice_key persisted.1
