-- ===== src/Dapos/Genesis/Minted.antt =====
-- What createGenesisTransactionAndAccount of dapos/dapos_service.go does to the balances.
use disgo.Prelude.{
  ◌≡◌, refl, sym, ap, subst, ◌∙◌, fun_ext, ◌⊎◌, inl, inr, Bool-cases, Option, none, some, ℤ,
  IsExact, if◌then◌else◌,
}
use mathlib.Core.Bool.{false≢true}
use disgo.Prelude.Text.{Bytes, ◌=ₛ◌, =ₛ_iff}
use disgo.Crypto.{External}
use disgo.Types.Account.RoundTrip.{ParsesTimes}
use disgo.Types.Errors.{Error, Result, ok, err, panic, key_not_found, ok-injective}
use disgo.Types.Json.{Json}
use disgo.Types.Transaction
use disgo.Types.Transaction.{Transaction}
use disgo.Store.{Stores, IsStore}
use disgo.Store.Records.{set_account, persist_account}
use disgo.Store.Records.Transactions.{
  key, set_transaction, persist_transaction, to_transaction_by_key,
}
use disgo.Store.Records.Entries.{
  SameAccounts, persist_transaction_entries, IsPersisted, persist_account-IsPersisted,
}
use disgo.Dapos.Execute.Transfer.{commit-Untouched}
use disgo.Dapos.Ledger.{ledger, balance_of, same_entry, Untouched-ledger, written_balance}
use disgo.Dapos.Peers.{Moment}
use disgo.Dapos.Genesis.{
  genesis_account, Created, finish, account_set, transaction_set, unless_there, parsed,
  create_genesis,
}

-- All balances as before, but for one address.
abbrev pub grant : Bytes → ℤ → (Bytes → Result ℤ) → Bytes → Result ℤ
grant to v l a = if to =ₛ a then ok v else l a

module _ (s : Stores) (x : External) (now : Moment) (db : s.Db) (laws : IsStore s)
    (times : ParsesTimes x) where
  -- Nothing has come of it, or the receiver has the value.
  abbrev IsMinted : Transaction → s.Db → Type 0
  IsMinted t d =
      (ledger s x d ≡ ledger s x db) ⊎ (ledger s x d ≡ grant t.to t.value (ledger s x db))

  finish_same :
      (txn : s.Txn) (c : s.Cache)
      → SameAccounts s x laws txn (s.new_transaction db)
      → ledger s x (finish s x now db txn c).1 ≡ ledger s x db
  unfolding finish
  finish_same txn c same = Untouched-ledger s x db _ (commit-Untouched s x laws db txn _ refl same)

  granted :
      (t : Transaction) (txn u : s.Txn) (done : Option Error × s.Db)
      → IsExact t.value
      → SameAccounts s x laws txn (s.new_transaction db)
      → IsPersisted s x laws (genesis_account t now.nanos) u txn
      → s.commit u db ≡ done
      → IsMinted t done.1
  unfolding ledger
  granted t txn u (some e, d) exact same p h = inl (ap (ledger s x) (laws.commit_fails u db d e h))
  granted t txn u (none, d) exact same p h = inr (
      fun_ext λ a. elim (Bool-cases (t.to =ₛ a)) [
        | inl here ↦ rw here (
            rw (← (=ₛ_iff t.to a).0 here) (
              written_balance s x d t.to (genesis_account t now.nanos) t.value p.form times refl
                exact p.encoded (laws.get-commit u db d _ h ∙ p.stored)))
        | inr away ↦ rw away (
            ap balance_of (
              same_entry s x (s.new_transaction db) (s.new_transaction d) a (
                laws.get-commit u db d _ h
                ∙ p.others a (λ e. false≢true (sym away ∙ (=ₛ_iff t.to a).1 e))
                ∙ same a)))
      ])

  account-IsMinted :
      (t : Transaction) (txn : s.Txn) (c : s.Cache) (m : Result s.Txn) (out : Created s x now db)
      → IsExact t.value
      → SameAccounts s x laws txn (s.new_transaction db)
      → persist_account s x (genesis_account t now.nanos) txn ≡ m
      → account_set s x now db (c, m) ≡ ok out
      → IsMinted t out.1
  unfolding account_set finish
  account-IsMinted t txn c (ok u) out exact same e h =
      subst (λ (o : Created s x now db). IsMinted t o.1) (ok-injective h)
        (granted t txn u _ exact same
          (persist_account-IsPersisted s x laws (genesis_account t now.nanos) txn u e) refl)
  account-IsMinted t txn c (err f) out exact same e h =
      inl (ap (λ (o : Created s x now db). ledger s x o.1) (sym (ok-injective h)))
  account-IsMinted t txn c panic out exact same e h = cc

  transaction-IsMinted :
      (t : Transaction) (c : s.Cache) (m : Result s.Txn) (out : Created s x now db)
      → IsExact t.value
      → persist_transaction s x t (s.new_transaction db) ≡ m
      → transaction_set s x now db t (c, m) ≡ ok out
      → IsMinted t out.1
  unfolding transaction_set set_account
  transaction-IsMinted t c (ok u) out exact e h =
      account-IsMinted t u _ _ out exact
        (persist_transaction_entries s x laws t (s.new_transaction db) u e).0 refl h
  transaction-IsMinted t c (err f) out exact e h =
      inl (ap (λ (o : Created s x now db). ledger s x o.1) (sym (ok-injective h)))
  transaction-IsMinted t c panic out exact e h = cc

  found_same :
      (c : s.Cache) (out : Created s x now db)
      → ok (finish s x now db (s.new_transaction db) c) ≡ ok out
      → ledger s x out.1 ≡ ledger s x db
  found_same c out h =
      subst (λ (o : Created s x now db). ledger s x o.1 ≡ ledger s x db) (ok-injective h)
        (finish_same (s.new_transaction db) c (λ a. refl))

  -- Nothing has come of it, or the transaction was not there yet and the receiver has the value.
  abbrev pub IsGenesis : Transaction → Result Transaction → s.Db → Type 0
  IsGenesis t there d =
      (ledger s x d ≡ ledger s x db)
      ⊎ ((there ≡ err key_not_found) × (ledger s x d ≡ grant t.to t.value (ledger s x db)))

  there-IsGenesis :
      (t : Transaction) (c : s.Cache) (m : Result Transaction) (out : Created s x now db)
      → IsExact t.value
      → unless_there s x now db t c m ≡ ok out
      → IsGenesis t m out.1
  unfolding unless_there set_transaction
  there-IsGenesis t c (ok u) out exact h = inl (found_same c out h)
  there-IsGenesis t c (err key_not_found) out exact h =
      elim (transaction-IsMinted t _ _ out exact refl h) [
        | inl same ↦ inl same
        | inr minted ↦ inr (refl, minted)
      ]
  there-IsGenesis t c (err _) out exact h = inl (found_same c out h)
  there-IsGenesis t c panic out exact h = cc

module _ (s : Stores) (x : External) (now : Moment) (db : s.Db) where
  -- Creating the genesis account: if it returns, and whichever step fails, all balances are as they
  -- were, or the genesis transaction was not in the database, and its receiver has the value of the
  -- transaction and every other address what it had. The value fits a float64.
  pub create_genesis-IsGenesis :
      (genesis : Json) (t : Transaction) (c : s.Cache) (out : Created s x now db)
      → (laws : IsStore s) → (times : ParsesTimes x)
      → Transaction.from_json x now.millis genesis ≡ ok t
      → IsExact t.value
      → create_genesis s x now db genesis c ≡ ok out
      → IsGenesis s x now db laws times t
          (to_transaction_by_key s x now.millis (s.new_transaction db) (key t.hash))
          out.1
  unfolding create_genesis parsed
  create_genesis-IsGenesis genesis t c out laws times read exact h =
      there-IsGenesis s x now db laws times t c _ out exact (rw read at h)
