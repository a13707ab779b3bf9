-- ===== src/Dapos/Execute/Transfer.antt =====
-- What executeTransaction of dapos/dapos_handshake.go does to the accounts for a transfer of tokens.
use disgo.Prelude.{
  ◌≡◌, refl, sym, ap, subst, ◌∙◌, ◌⊎◌, inl, inr, false, Bool-cases, Option, none, some, ℤ, ltb_ℤ,
  add64, sub64,
}
use disgo.Prelude.Text.{Bytes}
use disgo.Crypto.{External}
use disgo.Types.Errors.{Error, Result, ok, err, panic}
use disgo.Types.Errors
use disgo.Types.Receipt.{Receipt}
use disgo.Types.Account.{Account, int64_of}
use disgo.Types.Account
use disgo.Types.Gossip.{Gossip}
use disgo.Types.Transaction.{Transaction}
use disgo.Types.Constants.{type_transfer_tokens}
use disgo.Store.{Value, Stores, IsStore}
use disgo.Store.Records.{persist_receipt, to_account_by_address, save_receipt, commit_after}
use disgo.Store.Records.Transactions.{key}
use disgo.Store.Records.Entries.{SameAccounts, persist_receipt_entries}
use disgo.Dapos.Run.{
  State, Run, finish, Ends, Ends-next, Ends-stop, Ends-bind, Ends-weaken, Ends-weaken_both,
  Ends-or_stop, Ends-finish,
}
use disgo.Dapos.Dvm.{Dvm}
use disgo.Dapos.Execute.{
  Work, found_or_new, transfer, run_type, save, steps, already, execute_transaction,
}
use disgo.Dapos.Execute.Outcome.{IsSaved, AllOrNothing, save-AllOrNothing}

module _ (s : Stores) (x : External) where
  -- The accounts of two databases are the same entries.
  abbrev pub Untouched : s.Db → s.Db → Type 0
  Untouched db db' =
      (a : Bytes)
      → s.txn_get (s.new_transaction db') (Account.key a)
        ≡ s.txn_get (s.new_transaction db) (Account.key a)

  pub commit-Untouched :
      (laws : IsStore s) (db : s.Db) (t : s.Txn) (done : Option Error × s.Db)
      → s.commit t db ≡ done
      → SameAccounts s x laws t (s.new_transaction db)
      → Untouched db done.1
  commit-Untouched laws db t (none, db') e same a = laws.get-commit t db db' _ e ∙ same a
  commit-Untouched laws db t (some c, db') e same a =
      ap (λ d. s.txn_get (s.new_transaction d) (Account.key a)) (laws.commit_fails t db db' c e)

  commit_after-Untouched :
      (laws : IsStore s) (r : Receipt) (db : s.Db) (m : Result s.Txn)
      → persist_receipt s x r (s.new_transaction db) ≡ m
      → Untouched db (commit_after s x db m)
  unfolding commit_after
  commit_after-Untouched laws r db (ok t) e =
      commit-Untouched laws db t _ refl (persist_receipt_entries s x laws r _ t e).0
  commit_after-Untouched laws r db (err c) e =
      commit-Untouched laws db (s.new_transaction db) _ refl (λ a. refl)
  commit_after-Untouched laws r db panic e =
      commit-Untouched laws db (s.new_transaction db) _ refl (λ a. refl)

  -- A receipt's own transaction touches no account.
  save_receipt-Untouched :
      (laws : IsStore s) (r : Receipt) (db : s.Db) → Untouched db (save_receipt s x r db)
  unfolding save_receipt
  save_receipt-Untouched laws r db = commit_after-Untouched laws r db _ refl

  -- The work of a transfer that the payer can afford.
  abbrev pub paid : Work s → ℤ → ℤ → Work s
  paid w from to = record w {
    from_account = record w.from_account { balance = some (sub64 from w.transaction.value) };
    to_account = record w.to_account { balance = some (add64 to w.transaction.value) };
  }

  -- What a transfer that went through has found, checked and saved.
  pub record Transferred (now : ℤ) (t : Transaction) (db db' : s.Db) : Type 0 where
    pub work : Work s
    pub same_transaction : work.transaction ≡ t
    pub same_txn : work.txn ≡ s.new_transaction db
    pub payer :
        found_or_new t.from now (to_account_by_address s x (s.new_transaction db) t.from)
        ≡ ok work.from_account
    pub payee :
        found_or_new t.to now (to_account_by_address s x (s.new_transaction db) t.to)
        ≡ ok work.to_account
    pub from_balance : ℤ
    pub to_balance : ℤ
    pub from_value : int64_of work.from_account.balance ≡ ok from_balance
    pub to_value : int64_of work.to_account.balance ≡ ok to_balance
    pub enough : ltb_ℤ from_balance t.value ≡ false
    pub saved : IsSaved s x now (paid work from_balance to_balance) (s.new_transaction db')

  -- What `transfer` hands on.
  abbrev IsPaid : Work s → Work s → Type 0
  IsPaid w w' =
      (from : ℤ) × (to : ℤ) × (int64_of w.from_account.balance ≡ ok from)
      × (int64_of w.to_account.balance ≡ ok to)
      × (ltb_ℤ from w.transaction.value ≡ false)
      × (w' ≡ paid w from to)

  module _ (v : Dvm s) (laws : IsStore s) where
    transfer-Ends :
        (w : Work s) → Ends (λ st. Untouched w.state.db st.db) (IsPaid w) (transfer s x v w)
    unfolding transfer
    transfer-Ends w =
        Ends-or_stop _ (IsPaid w) (int64_of w.from_account.balance) _ _
          (λ from e.
            Ends-or_stop _ (IsPaid w) (int64_of w.to_account.balance) _ _
              (λ to e'. elim (Bool-cases (ltb_ℤ from w.transaction.value)) [
                | inl short ↦
                    rw short (Ends-stop _ (IsPaid w) _ (save_receipt-Untouched laws _ w.state.db))
                | inr enough ↦ rw enough (Ends-next _ (IsPaid w) _ (from, to, e, e', enough, refl))
              ])
              (λ c h a. refl))
          (λ c h a. refl)

    -- The switch takes a transfer to `transfer`.
    pub run_type-transfer :
        (millis : ℤ) (w : Work s)
        → w.transaction.type ≡ type_transfer_tokens
        → run_type s x v millis w ≡ transfer s x v w
    unfolding run_type
    run_type-transfer millis w e = rw e

    module _ (now millis : ℤ) (t : Transaction) (gossip : Gossip) (st : State s) where
      abbrev Settled : State s → Type 0
      Settled st' = Untouched st.db st'.db ⊎ Transferred now t st.db st'.db

      -- The end of a transfer whose accounts have been found.
      settle :
          (w w' : Work s)
          → w.state ≡ st
          → w.txn ≡ s.new_transaction st.db
          → w.transaction ≡ t
          → found_or_new t.from now (to_account_by_address s x (s.new_transaction st.db) t.from)
            ≡ ok w.from_account
          → found_or_new t.to now (to_account_by_address s x (s.new_transaction st.db) t.to)
            ≡ ok w.to_account
          → IsPaid w w'
          → (st' : State s) → AllOrNothing s x now w' st'
          → Settled st'
      settle w w' e e' e'' found found' (from, to, b, b', enough, made) st' (inl same) = inl (λ a.
          ap (λ d. s.txn_get (s.new_transaction d) (Account.key a))
            (same ∙ ap (λ (q : Work s). q.state.db) made ∙ ap (λ (q : State s). q.db) e))
      settle w w' e e' e'' found found' (from, to, b, b', enough, made) st' (inr saved) =
          inr (record {
            work = w;
            same_transaction = e'';
            same_txn = e';
            payer = found;
            payee = found';
            from_balance = from;
            to_balance = to;
            from_value = b;
            to_value = b';
            enough = subst (λ (q : Transaction). ltb_ℤ from q.value ≡ false) e'' enough;
            saved = subst (λ (q : Work s). IsSaved s x now q (s.new_transaction st'.db)) made saved;
          })

      steps-Settled :
          (receipt : Receipt)
          → t.type ≡ type_transfer_tokens
          → Ends Settled Settled (steps s x v now millis t receipt gossip st)
      unfolding steps
      steps-Settled receipt transfers =
          Ends-or_stop Settled Settled
            (found_or_new t.from now (to_account_by_address s x (s.new_transaction st.db) t.from)) _
            _
            (λ from found.
              Ends-or_stop Settled Settled
                (found_or_new t.to now (to_account_by_address s x (s.new_transaction st.db) t.to)) _
                _
                (λ to found'.
                  let w : Work s = record {
                    state = st;
                    txn = s.new_transaction st.db;
                    transaction = t;
                    from_account = from;
                    to_account = to;
                    receipt = receipt;
                  } in
                  Ends-bind Settled (IsPaid w) Settled (run_type s x v millis w) _
                    (rw (run_type-transfer millis w transfers) (
                      Ends-weaken _ Settled (IsPaid w) (transfer s x v w) (λ st' u. inl u)
                        (transfer-Ends w)))
                    (λ w' p.
                      Ends-weaken_both _ Settled (save s x v now gossip w')
                        (settle w w' refl refl refl found found' p)
                        (save-AllOrNothing s x v laws now w' gossip)))
                (λ c h. inl (save_receipt-Untouched laws _ st.db)))
            (λ c h. inl (λ a. refl))

      either :
          (m : Result Value) (r : Run (State s) (State s)) {st' : State s}
          → Ends Settled Settled r
          → already s x v m st (finish r) ≡ ok st'
          → Settled st'
      unfolding already
      either (ok a) r h e = inl (λ a.
          ap (λ (q : State s). s.txn_get (s.new_transaction q.db) (Account.key a))
            (sym (Errors.ok-injective e)))
      either (err c) r h e = Ends-finish Settled r h e
      either panic r h e = Ends-finish Settled r h e

      -- Whatever fails on the way, a transfer leaves every account as it was, or it finds both of
      -- its accounts, the payer's balance is enough, and both accounts are saved with the amount
      -- moved from the one to the other, together with the transaction.
      pub execute_transaction-Settled :
          (receipt : Receipt) {st' : State s}
          → t.type ≡ type_transfer_tokens
          → execute_transaction s x v now millis t receipt gossip st ≡ ok st'
          → Settled st'
      unfolding execute_transaction
      execute_transaction-Settled receipt transfers e =
          either (s.txn_get (s.new_transaction st.db) (key t.hash)) _
            (steps-Settled receipt transfers) e
