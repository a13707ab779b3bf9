-- ===== src/Dapos/Ledger/Indexed.antt =====
-- That executing a transfer (executeTransaction of dapos/dapos_handshake.go) keeps every account
-- under its own address, so that the refinement applies to the next execution too.
use disgo.Prelude.{◌≡◌, sym, ap, subst, ◌∙◌, ◌≢◌, inl, inr, Bool-cases, false, ℤ, pos}
use mathlib.Core.Bool.{false≢true}
use disgo.Prelude.Text.{Bytes, ◌=ₛ◌, =ₛ_iff}
use disgo.Crypto.{External}
use disgo.Types.Errors.{ok}
use disgo.Types.Json.{Json}
use disgo.Types.Account.{Account, marshal}
use disgo.Types.Account
use disgo.Types.Account.RoundTrip.{from_json_address}
use disgo.Types.Receipt.{Receipt}
use disgo.Types.Gossip.{Gossip}
use disgo.Types.Transaction.{Transaction}
use disgo.Types.Constants.{type_transfer_tokens}
use disgo.Store.{Value, Stores, IsStore}
use disgo.Store.Records.{to_account_by_address}
use disgo.Dapos.Run.{State}
use disgo.Dapos.Dvm.{Dvm}
use disgo.Dapos.Execute.{execute_transaction}
use disgo.Dapos.Execute.Transfer.{Transferred, execute_transaction-Settled}
use disgo.Dapos.Ledger.{IsIndexed, read_entry, same_entry}
use disgo.Dapos.Ledger.Refinement.{payer_is, payee_is}

module _ (s : Stores) (x : External) where
  -- What is read where an account has been written has the account's address.
  entry_address :
      (txn : s.Txn) (key_address : Bytes) (a c : Account) (j : Json)
      → marshal x a ≡ ok j
      → s.txn_get txn (Account.key key_address) ≡ ok (Value.json j)
      → to_account_by_address s x txn key_address ≡ ok c
      → c.address ≡ a.address
  entry_address txn b a c j made stored read =
      from_json_address x a c j made (sym (read_entry s x txn b j stored) ∙ read)

  unlike : (a b : Bytes) → (a =ₛ b) ≡ false → b ≢ a
  unlike a b h e = false≢true (sym h ∙ (=ₛ_iff a b).1 (sym e))

  module _ (now : ℤ) (t : Transaction) (db db' : s.Db) (tr : Transferred s x now t db db')
      (indexed : IsIndexed s x db) (ne : t.from ≢ t.to) where
    from_is : tr.work.from_account.address ≡ t.from
    from_is = payer_is s x now t db db' (pos 0) (pos 0) tr indexed

    to_is : tr.work.to_account.address ≡ t.to
    to_is = payee_is s x now t db db' (pos 0) (pos 0) tr indexed

    at_from :
        (c : Account)
        → to_account_by_address s x (s.new_transaction db') t.from ≡ ok c
        → c.address ≡ t.from
    at_from c read =
        entry_address (s.new_transaction db') t.from _ c tr.saved.payer_form tr.saved.payer_encoded
          (subst
            (λ a.
              s.txn_get (s.new_transaction db') (Account.key a)
              ≡ ok (Value.json tr.saved.payer_form))
            from_is (tr.saved.payer_stored (λ e. ne (sym from_is ∙ sym e ∙ to_is))))
          read
        ∙ from_is

    at_to :
        (c : Account)
        → to_account_by_address s x (s.new_transaction db') t.to ≡ ok c
        → c.address ≡ t.to
    at_to c read =
        entry_address (s.new_transaction db') t.to _ c tr.saved.payee_form tr.saved.payee_encoded
          (subst
            (λ a.
              s.txn_get (s.new_transaction db') (Account.key a)
              ≡ ok (Value.json tr.saved.payee_form))
            to_is tr.saved.payee_stored)
          read
        ∙ to_is

    at_other :
        (a : Bytes) (c : Account)
        → t.from ≢ a
        → t.to ≢ a
        → to_account_by_address s x (s.new_transaction db') a ≡ ok c
        → c.address ≡ a
    at_other a c ne₁ ne₂ read = indexed a c (
        sym (
          same_entry s x (s.new_transaction db) (s.new_transaction db') a (
            tr.saved.others a (λ e. ne₁ (sym from_is ∙ e)) (λ e. ne₂ (sym to_is ∙ e))
            ∙ ap (λ u. s.txn_get u (Account.key a)) tr.same_txn))
        ∙ read)

    Transferred-IsIndexed : IsIndexed s x db'
    Transferred-IsIndexed a c read = elim (Bool-cases (a =ₛ t.from)) [
      | inl e ↦
          let here = (=ₛ_iff a t.from).0 e in
          at_from c (ap (to_account_by_address s x (s.new_transaction db')) (sym here) ∙ read)
          ∙ sym here
      | inr e ↦ elim (Bool-cases (a =ₛ t.to)) [
        | inl f ↦
            let here = (=ₛ_iff a t.to).0 f in
            at_to c (ap (to_account_by_address s x (s.new_transaction db')) (sym here) ∙ read)
            ∙ sym here
        | inr f ↦ at_other a c (unlike a t.from e) (unlike a t.to f) read
      ]
    ]

module _ (s : Stores) (x : External) (v : Dvm s) where
  -- If every account is stored under its own address, then so it is after executing a transfer
  -- between two addresses, whichever of its steps fails.
  pub execute_transaction-IsIndexed :
      (now millis : ℤ) (t : Transaction) (receipt : Receipt) (gossip : Gossip) (st st' : State s)
      → IsStore s
      → IsIndexed s x st.db
      → t.type ≡ type_transfer_tokens
      → t.from ≢ t.to
      → execute_transaction s x v now millis t receipt gossip st ≡ ok st'
      → IsIndexed s x st'.db
  execute_transaction-IsIndexed now millis t receipt gossip st st' laws indexed transfers ne e =
      elim (execute_transaction-Settled s x v laws now millis t gossip st receipt transfers e) [
        | inl same ↦ λ a c read. indexed a c (sym (same_entry s x _ _ a (same a)) ∙ read)
        | inr tr ↦ Transferred-IsIndexed s x now t st.db st'.db tr indexed ne
      ]
