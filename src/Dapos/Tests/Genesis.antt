-- ===== src/Dapos/Tests/Genesis.antt =====
-- The creation of a genesis account in an empty database.
use disgo.Prelude.{◌≡◌, refl, ap, ◌∙◌, [], ◌+ℤ◌, pos, arith}
use disgo.Prelude.Text.{codes}
use disgo.Crypto.Toy.{toy}
use disgo.Types.Account
use disgo.Types.Errors.{ok}
use disgo.Types.Json.{Json}
use disgo.Types.Transaction
use disgo.Types.Transaction.{Transaction}
use disgo.Types.Json.{AreExact}
use disgo.Types.Transaction.RoundTrip.{from_json-marshal_transaction, decoded}
use disgo.Store.{assoc_stores, assoc_IsStore, lookup}
use disgo.Store.Records.{set_account, persist_account, cache_account}
use disgo.Store.Records.Transactions.{
  key, set_transaction, persist_transaction, cache_transaction, to_transaction_by_key,
}
use disgo.Dapos.Peers.{Moment}
use disgo.Dapos.Genesis.{
  Created, create_genesis, parsed, unless_there, transaction_set, account_set, finish,
}
use disgo.Dapos.Genesis.Minted.{IsGenesis, create_genesis-IsGenesis}
use disgo.Dapos.Tests.{times}

abbrev first : Transaction
first = record Transaction.empty { hash = codes "a4"; to = codes "3e"; value = pos 10000000 }

abbrev genesis : Json
genesis = Transaction.marshal toy first

abbrev now : Moment
now = record { nanos = pos 1500000000; millis = pos 1500 }

at_zero : Transaction.check_time (pos 1500) (pos 0) ≡ ok (pos 0)
unfolding Transaction.check_time ◌+ℤ◌
at_zero = refl

read : Transaction.from_json toy (pos 1500) genesis ≡ ok (decoded first)
unfolding AreExact
read =
    from_json-marshal_transaction toy (pos 1500) first
      (record {
        byte = omega arith;
        value = (omega arith, omega arith);
        time = (omega arith, omega arith);
        params = tt;
        result = tt;
      })
      at_zero refl

made :
    (out : Created assoc_stores toy now []) × (parsed assoc_stores toy now [] []
        (ok (decoded first))
      ≡ ok out)
unfolding parsed unless_there transaction_set account_set finish to_transaction_by_key lookup key
    set_transaction persist_transaction cache_transaction set_account persist_account cache_account
    Account.marshal Account.int64_of
made = (_, refl)

created : create_genesis assoc_stores toy now [] genesis [] ≡ ok made.0
unfolding create_genesis
created = ap (parsed assoc_stores toy now [] []) read ∙ made.1

create_genesis-IsGenesis_example :
    IsGenesis assoc_stores toy now [] assoc_IsStore times
      (decoded first)
      (to_transaction_by_key assoc_stores toy (pos 1500) [] (key (codes "a4")))
      made.0.1
create_genesis-IsGenesis_example =
    create_genesis-IsGenesis assoc_stores toy now [] genesis (decoded first) [] made.0 assoc_IsStore
      times read (omega arith, omega arith) created
