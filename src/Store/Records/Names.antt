-- ===== src/Store/Records/Names.antt =====
-- What ToAccountByName of commons/types/account.go reads of what Persist has written.
use disgo.Prelude.{◌≡◌, ap, ◌∙◌, ◌++◌}
use disgo.Prelude.Text.{Bytes, codes}
use disgo.Crypto.{External}
use disgo.Types.Errors.{ok, >>=-eq-ok}
use disgo.Types.Account
use disgo.Types.Account.{Account}
use disgo.Store.Defs.{json, text, Stores, IsStore}
use disgo.Store.Records.{persist_account, to_account_by_address, to_account_by_name, bytes_of}

module _ (s : Stores) (x : External) (laws : IsStore s) where
  named :
      (a : Account) (txn u : s.Txn)
      → persist_account s x a txn ≡ ok u
      → s.txn_get u (Account.name_key a.name) ≡ ok (text (Account.key a.address))
  unfolding persist_account
  named a txn u h =
      let (j, _, h₁) = >>=-eq-ok (Account.marshal x a) _ h in
      let (t, _, h₂) = >>=-eq-ok (s.txn_set txn (Account.key a.address) (json j)) _ h₁ in
      laws.get-set_self _ _ _ _ h₂

  by_name :
      (u : s.Txn) (name k : Bytes)
      → s.txn_get u (codes "key-account-name-" ++ name) ≡ ok (text k)
      → to_account_by_name s x u name ≡ to_account_by_address s x u k
  unfolding to_account_by_name bytes_of
  by_name u name k e = rw e

  -- Right after an account has been persisted, looking for its name, in the spelling of the name's
  -- key, looks for an account whose address is the key of the account, and so twice prefixed.
  pub to_account_by_name-persist_account :
      (a : Account) (name : Bytes) (txn u : s.Txn)
      → codes "key-account-name-" ++ name ≡ Account.name_key a.name
      → persist_account s x a txn ≡ ok u
      → to_account_by_name s x u name ≡ to_account_by_address s x u (Account.key a.address)
  to_account_by_name-persist_account a name txn u e h =
      by_name u name (Account.key a.address) (ap (λ k. s.txn_get u k) e ∙ named a txn u h)
