-- ===== src/Store/Records/Entries.antt =====
-- Which entries of the database the methods Persist of commons/types write: the keys of the
-- different tables are apart, and an entry that is not written keeps its value.
use disgo.Prelude.{true, ◌≡◌, ◌≢◌, refl, sym, ◌∙◌, get_elem?}
use disgo.Prelude.Text.{Bytes, codes, append_cancel, apart, is_byte}
use disgo.Crypto.{External}
use disgo.Types.Errors.{ok, >>=-eq-ok}
use disgo.Types.Json.{Json}
use disgo.Types.Receipt
use disgo.Types.Receipt.{Receipt}
use disgo.Types.Account
use disgo.Types.Account.{Account}
use disgo.Types.Gossip
use disgo.Types.Gossip.{Gossip}
use disgo.Types.Transaction
use disgo.Types.Transaction.{Transaction}
use disgo.Store.Defs.{Value, json, text, Stores, IsStore}
use disgo.Store.Records.{persist_receipt, persist_gossip, persist_account}
use disgo.Store.Records.Transactions.{
  key, type_key, time_key, from_key, to_key, persist_transaction,
}

-- The tables that are not the accounts'.
pub receipt_ne_account : (h a : Bytes) → Receipt.key h ≢ Account.key a
unfolding Receipt.key Account.key
receipt_ne_account h a = apart 6 b'r' refl refl

pub gossip_ne_account : (h a : Bytes) → Gossip.key h ≢ Account.key a
unfolding Gossip.key Account.key
gossip_ne_account h a = apart 6 b'g' refl refl

pub name_ne_account : (n a : Bytes) → Account.name_key n ≢ Account.key a
unfolding Account.name_key Account.key
name_ne_account n a = apart 0 b'k' refl refl

pub transaction_ne_account : (h a : Bytes) → key h ≢ Account.key a
unfolding key Account.key
transaction_ne_account h a = apart 6 b't' refl refl

pub receipt_ne_transaction : (h g : Bytes) → Receipt.key h ≢ key g
unfolding Receipt.key key
receipt_ne_transaction h g = apart 6 b'r' refl refl

pub gossip_ne_transaction : (h g : Bytes) → Gossip.key h ≢ key g
unfolding Gossip.key key
gossip_ne_transaction h g = apart 6 b'g' refl refl

pub name_ne_transaction : (n g : Bytes) → Account.name_key n ≢ key g
unfolding Account.name_key key
name_ne_transaction n g = apart 0 b'k' refl refl

pub account_ne_transaction : (a g : Bytes) → Account.key a ≢ key g
unfolding Account.key key
account_ne_transaction a g e = transaction_ne_account g a (sym e)

-- Accounts of different addresses have different keys.
pub account_ne_account : (a b : Bytes) → a ≢ b → Account.key a ≢ Account.key b
unfolding Account.key
account_ne_account a b h e = h (append_cancel (codes "table-account-") a b e)

module _ (s : Stores) (x : External) (laws : IsStore s) where
  -- What a step of a database's transaction may do to the accounts: nothing.
  abbrev pub SameAccounts : s.Txn → s.Txn → Type 0
  SameAccounts u t = (a : Bytes) → s.txn_get u (Account.key a) ≡ s.txn_get t (Account.key a)

  pub SameAccounts-trans : {t u w : s.Txn} → SameAccounts w u → SameAccounts u t → SameAccounts w t
  SameAccounts-trans f g a = f a ∙ g a

  set-SameAccounts :
      {t u : s.Txn} (k : Bytes) (v : Value)
      → ((a : Bytes) → k ≢ Account.key a)
      → s.txn_set t k v ≡ ok u
      → SameAccounts u t
  set-SameAccounts k v h e a = laws.get-set_ne _ _ k (Account.key a) v (h a) e

  -- An index key of a transaction is none of an account, and none of a transaction.
  index_ne_account :
      (k : Bytes) → is_byte b'k' (get_elem? k 0) ≡ true → (a : Bytes) → k ≢ Account.key a
  unfolding Account.key
  index_ne_account k h a = apart 0 b'k' h refl

  index_ne_transaction : (k : Bytes) → is_byte b'k' (get_elem? k 0) ≡ true → (h : Bytes) → k ≢ key h
  unfolding key
  index_ne_transaction k e h = apart 0 b'k' e refl

  index_of :
      (t : Transaction)
      → (is_byte b'k' (get_elem? (type_key t) 0) ≡ true)
        × (is_byte b'k' (get_elem? (time_key t) 0) ≡ true)
        × (is_byte b'k' (get_elem? (from_key t) 0) ≡ true)
        × (is_byte b'k' (get_elem? (to_key t) 0) ≡ true)
  unfolding type_key time_key from_key to_key
  index_of t = (refl, refl, refl, refl)

  -- Transaction.Persist writes the transaction under its key and no account.
  pub persist_transaction_entries :
      (t : Transaction) (txn u : s.Txn)
      → persist_transaction s x t txn ≡ ok u
      → SameAccounts u txn × (s.txn_get u (key t.hash) ≡ ok (json (Transaction.marshal x t)))
  unfolding persist_transaction
  persist_transaction_entries t txn u h =
      let (i, j, k, l) = index_of t in
      let v : Value = text (key t.hash) in
      let (t₁, e₁, h₁) = >>=-eq-ok (s.txn_set txn (key t.hash) _) _ h in
      let (t₂, e₂, h₂) = >>=-eq-ok (s.txn_set t₁ (type_key t) v) _ h₁ in
      let (t₃, e₃, h₃) = >>=-eq-ok (s.txn_set t₂ (time_key t) v) _ h₂ in
      let (t₄, e₄, h₄) = >>=-eq-ok (s.txn_set t₃ (from_key t) v) _ h₃ in
      (
        λ a.
            set-SameAccounts (to_key t) v (index_ne_account _ l) h₄ a
            ∙ set-SameAccounts (from_key t) v (index_ne_account _ k) e₄ a
            ∙ set-SameAccounts (time_key t) v (index_ne_account _ j) e₃ a
            ∙ set-SameAccounts (type_key t) v (index_ne_account _ i) e₂ a
            ∙ set-SameAccounts (key t.hash) _ (transaction_ne_account t.hash) e₁ a,
        laws.get-set_ne _ _ (to_key t) _ v (index_ne_transaction _ l t.hash) h₄
            ∙ laws.get-set_ne _ _ (from_key t) _ v (index_ne_transaction _ k t.hash) e₄
            ∙ laws.get-set_ne _ _ (time_key t) _ v (index_ne_transaction _ j t.hash) e₃
            ∙ laws.get-set_ne _ _ (type_key t) _ v (index_ne_transaction _ i t.hash) e₂
            ∙ laws.get-set_self _ _ _ _ e₁,
      )

  -- What Account.Persist does to the tables of accounts and of transactions.
  pub record IsPersisted (a : Account) (u txn : s.Txn) : Type 0 where
    pub form : Json
    pub encoded : Account.marshal x a ≡ ok form
    pub stored : s.txn_get u (Account.key a.address) ≡ ok (json form)
    pub others :
        (b : Bytes) → a.address ≢ b → s.txn_get u (Account.key b) ≡ s.txn_get txn (Account.key b)
    pub transactions : (h : Bytes) → s.txn_get u (key h) ≡ s.txn_get txn (key h)

  pub persist_account-IsPersisted :
      (a : Account) (txn u : s.Txn) → persist_account s x a txn ≡ ok u → IsPersisted a u txn
  unfolding persist_account
  persist_account-IsPersisted a txn u h =
      let (j, e, h₁) = >>=-eq-ok (Account.marshal x a) _ h in
      let (t₁, e₁, h₂) = >>=-eq-ok (s.txn_set txn (Account.key a.address) (json j)) _ h₁ in
      let later : SameAccounts u t₁ = set-SameAccounts _ _ (name_ne_account a.name) h₂ in
      record {
        form = j;
        encoded = e;
        stored = later a.address ∙ laws.get-set_self _ _ _ _ e₁;
        others = λ b ne. later b ∙ laws.get-set_ne _ _ _ _ _ (account_ne_account a.address b ne) e₁;
        transactions = λ h.
            laws.get-set_ne _ _ _ _ _ (name_ne_transaction a.name h) h₂
            ∙ laws.get-set_ne _ _ _ _ _ (account_ne_transaction a.address h) e₁;
      }

  -- Receipt.Persist and Gossip.Persist write neither an account nor a transaction.
  pub persist_receipt_entries :
      (r : Receipt) (txn u : s.Txn)
      → persist_receipt s x r txn ≡ ok u
      → SameAccounts u txn × ((h : Bytes) → s.txn_get u (key h) ≡ s.txn_get txn (key h))
  unfolding persist_receipt
  persist_receipt_entries r txn u e = (
    set-SameAccounts _ _ (receipt_ne_account r.transaction_hash) e,
    λ h. laws.get-set_ne _ _ _ _ _ (receipt_ne_transaction r.transaction_hash h) e,
  )

  pub persist_gossip_entries :
      (g : Gossip) (txn u : s.Txn)
      → persist_gossip s x g txn ≡ ok u
      → SameAccounts u txn × ((h : Bytes) → s.txn_get u (key h) ≡ s.txn_get txn (key h))
  unfolding persist_gossip
  persist_gossip_entries g txn u e = (
    set-SameAccounts _ _ (gossip_ne_account g.transaction.hash) e,
    λ h. laws.get-set_ne _ _ _ _ _ (gossip_ne_transaction g.transaction.hash h) e,
  )
