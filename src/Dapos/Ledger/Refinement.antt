-- ===== src/Dapos/Ledger/Refinement.antt =====
-- That executing a transfer (executeTransaction of dapos/dapos_handshake.go) is a payment.
use disgo.Prelude.{
  ◌≡◌, sym, ap, subst, ◌∙◌, ◌≢◌, ◌⊎◌, inl, inr, some, ℤ, ◌+ℤ◌, ◌-ℤ◌, ◌≤ℤ◌, add64, sub64,
}
use disgo.Prelude.Text.{Bytes}
use disgo.Crypto.{External}
use disgo.Types.Errors.{ok, ok-injective}
use disgo.Types.Account.{Account, int64_of, from_json, marshal}
use disgo.Types.Account
use disgo.Types.Account.RoundTrip.{ParsesTimes}
use disgo.Types.Receipt.{Receipt}
use disgo.Types.Gossip.{Gossip}
use disgo.Types.Transaction.{Transaction}
use disgo.Types.Transaction
use disgo.Types.Constants.{type_transfer_tokens}
use disgo.Store.{Value, Stores, IsStore}
use disgo.Dapos.Run.{State}
use disgo.Dapos.Dvm.{Dvm}
use disgo.Dapos.Execute.{execute_transaction}
use disgo.Dapos.Execute.Transfer.{Untouched, Transferred, execute_transaction-Settled}
use disgo.Prelude.{wrap64, ltb_ℤ, refl, false, arith}
use disgo.Types.Errors.{Error, Result, err, panic, key_not_found}
use disgo.Store.Records.Transactions.{key}
use disgo.Dapos.Execute.{found_or_new, already}
use disgo.Dapos.Execute.Success.{IsReliable, execute_transaction-Transferred}
use disgo.Dapos.Ledger.{
  balance_of, ledger, pay, IsIndexed, IsFunded, found_balance, found_address, same_entry,
  Untouched-ledger, written_balance, enough_le, left-IsExact, got-IsExact, is_payment,
}

module _ (s : Stores) (x : External) (now : ℤ) (t : Transaction) (db db' : s.Db) (p q : ℤ)
    (tr : Transferred s x now t db db') where
  pub payer_is : IsIndexed s x db → tr.work.from_account.address ≡ t.from
  payer_is indexed = found_address s x t.from now _ tr.work.from_account (indexed t.from) tr.payer

  pub payee_is : IsIndexed s x db → tr.work.to_account.address ≡ t.to
  payee_is indexed = found_address s x t.to now _ tr.work.to_account (indexed t.to) tr.payee

  payer_had : ledger s x db t.from ≡ ok p → tr.from_balance ≡ p
  unfolding ledger
  payer_had h =
      ok-injective
        (sym tr.from_value ∙ sym (found_balance t.from now _ tr.work.from_account tr.payer) ∙ h)

  payee_had : ledger s x db t.to ≡ ok q → tr.to_balance ≡ q
  unfolding ledger
  payee_had h =
      ok-injective
        (sym tr.to_value ∙ sym (found_balance t.to now _ tr.work.to_account tr.payee) ∙ h)

  module _ (times : ParsesTimes x) (indexed : IsIndexed s x db) (ne : t.from ≢ t.to)
      (hp : ledger s x db t.from ≡ ok p) (hq : ledger s x db t.to ≡ ok q)
      (funded : IsFunded p q t.value) where
    affordable : t.value ≤ℤ p
    affordable =
        subst (λ b. t.value ≤ℤ b) (payer_had hp) (enough_le tr.from_balance t.value tr.enough)

    payer_has : ledger s x db' t.from ≡ ok (p -ℤ t.value)
    payer_has =
        let (exact, sum) = left-IsExact p q t.value funded affordable in
        written_balance s x db' t.from _ (p -ℤ t.value) tr.saved.payer_form times
          (ap some (
            ap (λ b. sub64 b tr.work.transaction.value) (payer_had hp)
            ∙ ap (λ (u : Transaction). sub64 p u.value) tr.same_transaction
            ∙ sum))
          exact tr.saved.payer_encoded
          (subst
            (λ a.
              s.txn_get (s.new_transaction db') (Account.key a)
              ≡ ok (Value.json tr.saved.payer_form))
            (payer_is indexed)
            (tr.saved.payer_stored (λ e. ne (sym (payer_is indexed) ∙ sym e ∙ payee_is indexed))))

    payee_has : ledger s x db' t.to ≡ ok (q +ℤ t.value)
    payee_has =
        let (exact, sum) = got-IsExact p q t.value funded affordable in
        written_balance s x db' t.to _ (q +ℤ t.value) tr.saved.payee_form times
          (ap some (
            ap (λ b. add64 b tr.work.transaction.value) (payee_had hq)
            ∙ ap (λ (u : Transaction). add64 q u.value) tr.same_transaction
            ∙ sum))
          exact tr.saved.payee_encoded
          (subst
            (λ a.
              s.txn_get (s.new_transaction db') (Account.key a)
              ≡ ok (Value.json tr.saved.payee_form))
            (payee_is indexed) tr.saved.payee_stored)

    other_entry :
        (a : Bytes)
        → a ≢ t.from
        → a ≢ t.to
        → s.txn_get (s.new_transaction db') (Account.key a)
          ≡ s.txn_get (s.new_transaction db) (Account.key a)
    other_entry a ne₁ ne₂ =
        tr.saved.others a (λ e. ne₁ (sym e ∙ payer_is indexed))
          (λ e. ne₂ (sym e ∙ payee_is indexed))
        ∙ ap (λ u. s.txn_get u (Account.key a)) tr.same_txn

    others_have : (a : Bytes) → a ≢ t.from → a ≢ t.to → ledger s x db' a ≡ ledger s x db a
    unfolding ledger
    others_have a ne₁ ne₂ = ap balance_of (same_entry s x _ _ a (other_entry a ne₁ ne₂))

    -- A transfer that went through is a payment of the ledger.
    Transferred-pay : ledger s x db' ≡ pay t.from t.to t.value (ledger s x db)
    Transferred-pay =
        is_payment t.from t.to t.value (ledger s x db) (ledger s x db') p q ne hp hq payer_has
          payee_has others_have

module _ (s : Stores) (x : External) (v : Dvm s) where
  -- Executing a transfer between two accounts refines a payment: if every account is stored under
  -- its own address, the two balances and the amount are positive and sum up to less than 2 ^ 53,
  -- and the executor returns, then either the balance of every address is what it was, or the
  -- payer could afford the amount and the balances are those after the payment.
  pub execute_transaction-pay :
      (now millis : ℤ) (t : Transaction) (receipt : Receipt) (gossip : Gossip) (st st' : State s)
      (p q : ℤ)
      → IsStore s
      → ParsesTimes x
      → IsIndexed s x st.db
      → t.type ≡ type_transfer_tokens
      → t.from ≢ t.to
      → ledger s x st.db t.from ≡ ok p
      → ledger s x st.db t.to ≡ ok q
      → IsFunded p q t.value
      → execute_transaction s x v now millis t receipt gossip st ≡ ok st'
      → (ledger s x st'.db ≡ ledger s x st.db)
        ⊎ ((t.value ≤ℤ p) × (ledger s x st'.db ≡ pay t.from t.to t.value (ledger s x st.db)))
  execute_transaction-pay now millis t receipt gossip st st' p q laws times indexed transfers ne hp
        hq funded e =
      elim (execute_transaction-Settled s x v laws now millis t gossip st receipt transfers e) [
        | inl same ↦ inl (Untouched-ledger s x st.db st'.db same)
        | inr tr ↦ inr (
          affordable s x now t st.db st'.db p q tr times indexed ne hp hq funded,
          Transferred-pay s x now t st.db st'.db p q tr times indexed ne hp hq funded,
        )
      ]

found_exists :
    (a : Bytes) (now : ℤ) (r : Result Account) (p : ℤ)
    → balance_of r ≡ ok p
    → (c : Account) × (found_or_new a now r ≡ ok c) × (int64_of c.balance ≡ ok p)
unfolding balance_of int64_of wrap64
found_exists a now (ok b) p e = (b, refl, e)
found_exists a now (err key_not_found) p e = (_, refl, e)
found_exists a now (err _) p e = cc
found_exists a now panic p e = cc

le_enough : (p v : ℤ) → v ≤ℤ p → ltb_ℤ p v ≡ false
le_enough p v h = ground arith

module _ (s : Stores) (x : External) (v : Dvm s) where
  -- A transfer that is new and that the payer can afford is paid: where no write of the database
  -- fails, and under the conditions of the refinement, the executor returns, and the balances are
  -- those after the payment.
  pub execute_transaction-funded :
      (now millis : ℤ) (t : Transaction) (receipt : Receipt) (gossip : Gossip) (st : State s)
      (missing : Error) (p q : ℤ)
      → IsStore s
      → IsReliable s
      → ParsesTimes x
      → IsIndexed s x st.db
      → s.txn_get (s.new_transaction st.db) (key t.hash) ≡ err missing
      → t.type ≡ type_transfer_tokens
      → t.from ≢ t.to
      → ledger s x st.db t.from ≡ ok p
      → ledger s x st.db t.to ≡ ok q
      → IsFunded p q t.value
      → t.value ≤ℤ p
      → (st' : State s) × (execute_transaction s x v now millis t receipt gossip st ≡ ok st')
        × (ledger s x st'.db ≡ pay t.from t.to t.value (ledger s x st.db))
  unfolding ledger
  execute_transaction-funded now millis t receipt gossip st missing p q laws reliable times indexed
        new transfers ne hp hq funded enough =
      let (from, found, had) = found_exists t.from now _ p hp in
      let (to, found', had') = found_exists t.to now _ q hq in
      let (st', done, tr) =
        execute_transaction-Transferred s x v laws reliable now millis t receipt gossip st missing
          from to p q new transfers found found' had had' (le_enough p t.value enough) in
      (st', done, Transferred-pay s x now t st.db st'.db p q tr times indexed ne hp hq funded)

  again :
      (now millis : ℤ) (t : Transaction) (receipt : Receipt) (gossip : Gossip) (st : State s)
      (value : Value)
      → s.txn_get (s.new_transaction st.db) (key t.hash) ≡ ok value
      → execute_transaction s x v now millis t receipt gossip st ≡ ok st
  unfolding execute_transaction already
  again now millis t receipt gossip st value e = rw e

  -- A transfer moves its amount at most once: if it is executed, and then again a transaction of
  -- its hash, at any time and with any receipt and gossip, then the first execution has left all
  -- accounts as they were, or the second one leaves everything as it was.
  pub execute_transaction-once :
      (now millis now₂ millis₂ : ℤ) (t t₂ : Transaction) (receipt receipt₂ : Receipt)
      (gossip gossip₂ : Gossip) (st st' : State s)
      → IsStore s
      → t.type ≡ type_transfer_tokens
      → t₂.hash ≡ t.hash
      → execute_transaction s x v now millis t receipt gossip st ≡ ok st'
      → Untouched s x st.db st'.db
        ⊎ (execute_transaction s x v now₂ millis₂ t₂ receipt₂ gossip₂ st' ≡ ok st')
  execute_transaction-once now millis now₂ millis₂ t t₂ receipt receipt₂ gossip gossip₂ st st' laws
        transfers same e =
      elim (execute_transaction-Settled s x v laws now millis t gossip st receipt transfers e) [
        | inl u ↦ inl u
        | inr tr ↦ inr (
            again now₂ millis₂ t₂ receipt₂ gossip₂ st' _ (
              subst
                (λ h.
                  s.txn_get (s.new_transaction st'.db) (key h)
                  ≡ ok (Value.json (Transaction.marshal x tr.work.transaction)))
                (ap (λ (u : Transaction). u.hash) tr.same_transaction ∙ sym same)
                tr.saved.executed))
      ]
