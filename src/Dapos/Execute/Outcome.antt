-- ===== src/Dapos/Execute/Outcome.antt =====
-- What executeTransaction of dapos/dapos_handshake.go leaves in the database, whichever of its steps
-- fails: nothing changed, or everything saved.
use disgo.Prelude.{◌≡◌, refl, ◌∙◌, ◌≢◌, ◌⊎◌, inl, inr, Option, none, some, ℤ}
use disgo.Prelude.Text.{Bytes}
use disgo.Crypto.{External}
use disgo.Types.Errors.{Error, ok, conflict}
use disgo.Types.Json.{Json}
use disgo.Types.Receipt.{Receipt}
use disgo.Types.Account.{Account}
use disgo.Types.Account
use disgo.Types.Gossip.{Gossip}
use disgo.Types.Transaction.{Transaction}
use disgo.Types.Transaction
use disgo.Store.{Value, Stores, IsStore}
use disgo.Store.Records.{persist_account, persist_receipt, persist_gossip, set_receipt, set_gossip}
use disgo.Store.Records.Transactions.{key, persist_transaction}
use disgo.Store.Records.Entries.{
  persist_transaction_entries, IsPersisted, persist_account-IsPersisted, persist_receipt_entries,
  persist_gossip_entries,
}
use disgo.Dapos.Run.{State, Ends, Ends-next, Ends-or_stop}
use disgo.Dapos.Dvm.{Dvm}
use disgo.Dapos.Execute.{Work, save, save_replies, commit}

module _ (s : Stores) (x : External) where
  -- All that a saved execution has written, as the next transaction of the database sees it.
  pub record IsSaved (now : ℤ) (w : Work s) (u : s.Txn) : Type 0 where
    pub payer_form : Json
    pub payer_encoded : Account.marshal x (record w.from_account { updated = now }) ≡ ok payer_form
    pub payer_stored :
        w.to_account.address ≢ w.from_account.address
        → s.txn_get u (Account.key w.from_account.address) ≡ ok (Value.json payer_form)
    pub payee_form : Json
    pub payee_encoded : Account.marshal x (record w.to_account { updated = now }) ≡ ok payee_form
    pub payee_stored : s.txn_get u (Account.key w.to_account.address) ≡ ok (Value.json payee_form)
    pub others :
        (b : Bytes)
        → w.from_account.address ≢ b
        → w.to_account.address ≢ b
        → s.txn_get u (Account.key b) ≡ s.txn_get w.txn (Account.key b)
    pub executed :
        s.txn_get u (key w.transaction.hash) ≡ ok (Value.json (Transaction.marshal x w.transaction))

  -- Entries that are the same keep what is saved.
  pub IsSaved-same :
      (now : ℤ) (w : Work s) (u t : s.Txn)
      → ((a : Bytes) → s.txn_get u (Account.key a) ≡ s.txn_get t (Account.key a))
      → ((h : Bytes) → s.txn_get u (key h) ≡ s.txn_get t (key h))
      → IsSaved now w t
      → IsSaved now w u
  IsSaved-same now w u t f g i = record {
    payer_form = i.payer_form;
    payer_encoded = i.payer_encoded;
    payer_stored = λ ne. f _ ∙ i.payer_stored ne;
    payee_form = i.payee_form;
    payee_encoded = i.payee_encoded;
    payee_stored = f _ ∙ i.payee_stored;
    others = λ b ne ne'. f b ∙ i.others b ne ne';
    executed = g _ ∙ i.executed;
  }

  -- The accounts of the work as they are persisted.
  abbrev pub stamped_from : ℤ → Work s → Account
  stamped_from now w = record w.from_account { updated = now }

  abbrev pub stamped_to : ℤ → Work s → Account
  stamped_to now w = record w.to_account { updated = now }

  pub IsSaved-persist :
      (laws : IsStore s) (now : ℤ) (w : Work s) (t₁ t₂ t₃ : s.Txn)
      → persist_transaction s x w.transaction w.txn ≡ ok t₁
      → persist_account s x (stamped_from now w) t₁ ≡ ok t₂
      → persist_account s x (stamped_to now w) t₂ ≡ ok t₃
      → IsSaved now w t₃
  IsSaved-persist laws now w t₁ t₂ t₃ e₁ e₂ e₃ =
      let (same, executed) = persist_transaction_entries s x laws w.transaction w.txn t₁ e₁ in
      let p : IsPersisted s x laws (stamped_from now w) t₂ t₁ =
        persist_account-IsPersisted s x laws (stamped_from now w) t₁ t₂ e₂ in
      let q : IsPersisted s x laws (stamped_to now w) t₃ t₂ =
        persist_account-IsPersisted s x laws (stamped_to now w) t₂ t₃ e₃ in
      record {
        payer_form = p.form;
        payer_encoded = p.encoded;
        payer_stored = λ ne. q.others _ ne ∙ p.stored;
        payee_form = q.form;
        payee_encoded = q.encoded;
        payee_stored = q.stored;
        others = λ b ne ne'. q.others b ne' ∙ p.others b ne ∙ same b;
        executed = q.transactions _ ∙ p.transactions _ ∙ executed;
      }

  -- Either the database is the one that the work came with, or all of it is saved.
  abbrev pub AllOrNothing : ℤ → Work s → State s → Type 0
  AllOrNothing now w st = (st.db ≡ w.state.db) ⊎ IsSaved now w (s.new_transaction st.db)

  commit_db :
      (v : Dvm s) (st : State s) (r : Receipt) (o : Option Error) (db : s.Db)
      → (commit s x v st r (o, db)).db ≡ db
  commit_db v st r none db = refl
  commit_db v st r (some conflict) db = refl
  commit_db v st r (some _) db = refl

  module _ (v : Dvm s) (laws : IsStore s) (now : ℤ) (w : Work s) where
    commit-AllOrNothing :
        (st : State s) (r : Receipt) (t : s.Txn) (done : Option Error × s.Db)
        → st.db ≡ w.state.db
        → IsSaved now w t
        → s.commit t w.state.db ≡ done
        → AllOrNothing now w (commit s x v st r done)
    commit-AllOrNothing st r t (none, db) same i e = inr (
        IsSaved-same now w (s.new_transaction db) t (λ a. laws.get-commit t w.state.db db _ e)
          (λ h. laws.get-commit t w.state.db db _ e) i)
    commit-AllOrNothing st r t (some c, db) same i e =
        inl (commit_db v st r (some c) db ∙ laws.commit_fails t w.state.db db c e)

    -- From the receipt on, no step changes what is saved.
    finish-AllOrNothing :
        (gossip : Gossip) (r : Receipt) (t₃ : s.Txn)
        → IsSaved now w t₃
        → Ends (AllOrNothing now w) (AllOrNothing now w) (save_replies s x v gossip r t₃ w)
    unfolding save_replies set_receipt set_gossip
    finish-AllOrNothing gossip r t₃ saved =
        Ends-or_stop (AllOrNothing now w) (AllOrNothing now w) (persist_receipt s x r t₃) _ _
          (λ t₄ e₄.
            Ends-or_stop (AllOrNothing now w) (AllOrNothing now w)
              (persist_gossip s x (record gossip { transaction = w.transaction }) t₄) _ _
              (λ t₅ e₅.
                let (f, g) = persist_receipt_entries s x laws r t₃ t₄ e₄ in
                let (f', g') = persist_gossip_entries s x laws _ t₄ t₅ e₅ in
                Ends-next (AllOrNothing now w) (AllOrNothing now w) _ (
                  commit-AllOrNothing _ r t₅ (s.commit t₅ w.state.db) refl
                    (IsSaved-same now w t₅ t₃ (λ a. f' a ∙ f a) (λ h. g' h ∙ g h) saved) refl))
              (λ e h. inl refl))
          (λ e h. inl refl)

    pub save-AllOrNothing :
        (gossip : Gossip) → Ends (AllOrNothing now w) (AllOrNothing now w) (save s x v now gossip w)
    unfolding save
    save-AllOrNothing gossip =
        Ends-or_stop (AllOrNothing now w) (AllOrNothing now w)
          (persist_transaction s x w.transaction w.txn) _ _
          (λ t₁ e₁.
            Ends-or_stop (AllOrNothing now w) (AllOrNothing now w)
              (persist_account s x (stamped_from now w) t₁) _ _
              (λ t₂ e₂.
                Ends-or_stop (AllOrNothing now w) (AllOrNothing now w)
                  (persist_account s x (stamped_to now w) t₂) _ _
                  (λ t₃ e₃.
                    finish-AllOrNothing gossip _ t₃ (IsSaved-persist laws now w t₁ t₂ t₃ e₁ e₂ e₃))
                  (λ e h. inl refl))
              (λ e h. inl refl))
          (λ e h. inl refl)
