-- ===== src/Dapos/Execute/Success.antt =====
-- That executeTransaction of dapos/dapos_handshake.go goes through for a transfer that can be paid,
-- where no operation of the database fails.
use disgo.Prelude.{◌≡◌, refl, ◌∙◌, none, some, ℤ, ltb_ℤ, false, sub64, add64, wrap64}
use disgo.Prelude.Text.{Bytes}
use disgo.Crypto.{External}
use disgo.Types.Errors.{Error, Result, ok, err, ◌>>=◌}
use disgo.Types.Receipt.{Receipt}
use disgo.Types.Account.{Account, int64_of, marshal}
use disgo.Types.Gossip.{Gossip}
use disgo.Types.Transaction.{Transaction}
use disgo.Types.Constants.{type_transfer_tokens}
use disgo.Store.{Value, Stores, IsStore}
use disgo.Store.Records.{
  cache_gossip, cache_receipt, persist_account, persist_receipt, persist_gossip, set_receipt,
  set_gossip, to_account_by_address,
}
use disgo.Store.Records.Transactions.{key, persist_transaction}
use disgo.Store.Records.Entries.{persist_receipt_entries, persist_gossip_entries}
use disgo.Dapos.Run.{State, next, Reaches, Reaches-or_stop}
use disgo.Dapos.Dvm.{Dvm}
use disgo.Dapos.Execute.{
  Work, found_or_new, transfer, save, save_replies, steps, already, execute_transaction, commit,
}
use disgo.Dapos.Execute.Outcome.{IsSaved, IsSaved-same, IsSaved-persist, stamped_from, stamped_to}
use disgo.Dapos.Execute.Transfer.{paid, Transferred, run_type-transfer}

-- No write and no commit fails.
pub record IsReliable (s : Stores) : Type 0 where
  pub set_ok : (t : s.Txn) (k : Bytes) (v : Value) → (u : s.Txn) × (s.txn_set t k v ≡ ok u)
  pub commit_ok : (t : s.Txn) (d : s.Db) → (d' : s.Db) × (s.commit t d ≡ (none, d'))

-- A chain of which every step succeeds.
then_ok :
    {A B : Type 0} (m : Result A) (f : A → Result B) {a : A}
    → m ≡ ok a
    → (b : B) × (f a ≡ ok b)
    → (b : B) × ((m >>= f) ≡ ok b)
then_ok m f e r = rw e r

module _ (s : Stores) (x : External) (r : IsReliable s) where
  persist_transaction_ok :
      (t : Transaction) (txn : s.Txn) → (u : s.Txn) × (persist_transaction s x t txn ≡ ok u)
  unfolding persist_transaction
  persist_transaction_ok t txn = then_ok _ _ (r.set_ok _ _ _).1 (
      then_ok _ _ (r.set_ok _ _ _).1
        (then_ok _ _ (r.set_ok _ _ _).1 (then_ok _ _ (r.set_ok _ _ _).1 (r.set_ok _ _ _))))

  persist_account_ok :
      (a : Account) (b : ℤ) (txn : s.Txn)
      → int64_of a.balance ≡ ok b
      → (u : s.Txn) × (persist_account s x a txn ≡ ok u)
  unfolding persist_account marshal
  persist_account_ok a b txn e = rw e (then_ok _ _ (r.set_ok _ _ _).1 (r.set_ok _ _ _))

  persist_receipt_ok :
      (c : Receipt) (txn : s.Txn) → (u : s.Txn) × (persist_receipt s x c txn ≡ ok u)
  unfolding persist_receipt
  persist_receipt_ok c txn = r.set_ok _ _ _

  persist_gossip_ok : (g : Gossip) (txn : s.Txn) → (u : s.Txn) × (persist_gossip s x g txn ≡ ok u)
  unfolding persist_gossip
  persist_gossip_ok g txn = r.set_ok _ _ _

  module _ (v : Dvm s) (laws : IsStore s) (now : ℤ) (w : Work s) where
    commit-IsSaved :
        (st : State s) (c : Receipt) (t : s.Txn)
        → IsSaved s x now w t
        → IsSaved s x now w (s.new_transaction (commit s x v st c (s.commit t w.state.db)).db)
    commit-IsSaved st c t saved =
        let (d, e) = r.commit_ok t w.state.db in
        rw e (
          IsSaved-same s x now w (s.new_transaction d) t (λ a. laws.get-commit t w.state.db d _ e)
            (λ h. laws.get-commit t w.state.db d _ e) saved)

    save_replies_ok :
        (gossip : Gossip) (c : Receipt) (t₃ : s.Txn)
        → IsSaved s x now w t₃
        → Reaches
            (λ (st : State s). IsSaved s x now w (s.new_transaction st.db))
            (save_replies s x v gossip c t₃ w)
    unfolding save_replies set_receipt set_gossip
    save_replies_ok gossip c t₃ saved =
        let (t₄, e₄) = persist_receipt_ok c t₃ in
        let sent : Gossip = record gossip { transaction = w.transaction } in
        let (t₅, e₅) = persist_gossip_ok sent t₄ in
        let cached : s.Cache = cache_gossip s sent (cache_receipt s c w.state.cache) in
        let (f, g) = persist_receipt_entries s x laws c t₃ t₄ e₄ in
        let (f', g') = persist_gossip_entries s x laws _ t₄ t₅ e₅ in
        Reaches-or_stop _ (persist_receipt s x c t₃) _ _ t₄ e₄ (
          Reaches-or_stop _ (persist_gossip s x _ t₄) _ _ t₅ e₅ (
            _,
            refl,
            commit-IsSaved (record w.state { cache = cached }) c t₅
                (IsSaved-same s x now w t₅ t₃ (λ a. f' a ∙ f a) (λ h. g' h ∙ g h) saved),
          ))

    save_ok :
        (gossip : Gossip) (p q : ℤ)
        → int64_of w.from_account.balance ≡ ok p
        → int64_of w.to_account.balance ≡ ok q
        → Reaches
            (λ (st : State s). IsSaved s x now w (s.new_transaction st.db))
            (save s x v now gossip w)
    unfolding save
    save_ok gossip p q e e' =
        let (t₁, e₁) = persist_transaction_ok w.transaction w.txn in
        let (t₂, e₂) = persist_account_ok (stamped_from s x now w) p t₁ e in
        let (t₃, e₃) = persist_account_ok (stamped_to s x now w) q t₂ e' in
        Reaches-or_stop _ (persist_transaction s x w.transaction w.txn) _ _ t₁ e₁ (
          Reaches-or_stop _ (persist_account s x (stamped_from s x now w) t₁) _ _ t₂ e₂ (
            Reaches-or_stop _ (persist_account s x (stamped_to s x now w) t₂) _ _ t₃ e₃
              (save_replies_ok gossip _ t₃ (IsSaved-persist s x laws now w t₁ t₂ t₃ e₁ e₂ e₃))))

int64_some : (b : ℤ) → int64_of (some b) ≡ ok (wrap64 b)
unfolding int64_of
int64_some b = refl

module _ (s : Stores) (x : External) (v : Dvm s) (laws : IsStore s) (r : IsReliable s) where
  transfer_ok :
      (w : Work s) (p q : ℤ)
      → int64_of w.from_account.balance ≡ ok p
      → int64_of w.to_account.balance ≡ ok q
      → ltb_ℤ p w.transaction.value ≡ false
      → transfer s x v w ≡ next (paid s x w p q)
  unfolding transfer
  transfer_ok w p q e e' h = rw (e, e') (rw h)

  -- Where no write fails, a transfer that has not been executed, between accounts that are found,
  -- is carried out if the payer has the amount.
  pub execute_transaction-Transferred :
      (now millis : ℤ) (t : Transaction) (receipt : Receipt) (gossip : Gossip) (st : State s)
      (missing : Error) (from to : Account) (p q : ℤ)
      → s.txn_get (s.new_transaction st.db) (key t.hash) ≡ err missing
      → t.type ≡ type_transfer_tokens
      → found_or_new t.from now (to_account_by_address s x (s.new_transaction st.db) t.from)
        ≡ ok from
      → found_or_new t.to now (to_account_by_address s x (s.new_transaction st.db) t.to) ≡ ok to
      → int64_of from.balance ≡ ok p
      → int64_of to.balance ≡ ok q
      → ltb_ℤ p t.value ≡ false
      → (st' : State s) × (execute_transaction s x v now millis t receipt gossip st ≡ ok st')
        × Transferred s x now t st.db st'.db
  unfolding execute_transaction steps already
  execute_transaction-Transferred now millis t receipt gossip st missing from to p q new transfers
        found found' e e' enough =
      let w : Work s = record {
        state = st;
        txn = s.new_transaction st.db;
        transaction = t;
        from_account = from;
        to_account = to;
        receipt = receipt;
      } in
      let (st', ends, saved) =
        save_ok s x r v laws now (paid s x w p q) gossip _ _ (int64_some (sub64 p t.value))
          (int64_some (add64 q t.value)) in
      (
        st',
        rw new (
            rw (found, found')
              (rw (
                run_type-transfer s x v laws millis w transfers,
                transfer_ok w p q e e' enough,
                ends,
              ))),
        record {
          work = w;
          same_transaction = refl;
          same_txn = refl;
          payer = found;
          payee = found';
          from_balance = p;
          to_balance = q;
          from_value = e;
          to_value = e';
          enough = enough;
          saved = saved;
        },
      )
