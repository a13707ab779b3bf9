-- ===== src/Store/Paging.antt =====
-- AccountPaging, GossipPaging and ToTransactionsBy… of commons/types: loops over an iterator that
-- collect the items of one page. An iterator stands for the entries that it goes through.
pub mod Window
pub mod Pages
pub mod Timeline
mod Tests
use disgo.Prelude.{
  ℕ, suc, ◌+◌, Bool, true, false, ◌&&◌, ◌||◌, Option, none, some, List, [], ◌∷◌, ◌++◌, ℤ, pos,
  leb_ℤ, ltb_ℤ, add64, sub64, mul64, if◌then◌else◌,
}
use disgo.Prelude.Text.{Bytes, codes, decimal}
use disgo.Crypto.{External}
use disgo.Types.Errors.{
  Error, Result, ok, err, panic, ◌>>=◌, ◌>>◌, require, invalid_request, invalid_request_page,
  invalid_request_page_size, invalid_request_hash,
}
use disgo.Types.Account
use disgo.Types.Account.{Account}
use disgo.Types.Gossip
use disgo.Types.Gossip.{Gossip}
use disgo.Types.Receipt.{is_empty}
use disgo.Types.Transaction
use disgo.Types.Transaction.{Transaction}
use disgo.Sorting.{sort_by_time}
use disgo.Store.Defs.{Value, Stores}
use disgo.Store.Records.{decode, attempt, to_account_by_address}
use disgo.Store.Records.Nodes.{bytes_of}
use disgo.Store.Records.Transactions.{key, from_key, to_key, set_transients, to_transaction_by_key}

-- (page * pageSize) - (pageSize - 1)
unfoldable pub first_item : ℤ → ℤ → ℤ
first_item page size = sub64 (mul64 page size) (sub64 size (pos 1))

-- iteratorCount >= firstItem && iteratorCount < (firstItem+pageSize)
unfoldable pub in_page : ℤ → ℤ → ℕ → Bool
in_page first size n = leb_ℤ first (pos n) && ltb_ℤ (pos n) (add64 first size)

module _ {A : Type 0} (inside stop : ℕ → Bool) (load : Value → Result (Option A)) where
  -- The loop, with iteratorCount: an item inside the page is loaded, or left out by a `continue`;
  -- then comes the test that breaks the loop.
  unfoldable pub walk : ℕ → List (Bytes × Value) → Result (List A)
  walk n [] = ok []
  walk n ((k, v) ∷ items) =
      let next = walk (suc n) items in
      let rest = if stop (suc n) then ok [] else next in
      let here = load v >>= λ o. elim o [ none ↦ next | some a ↦ rest >>= λ l. ok (a ∷ l) ] in
      if inside (suc n) then here else rest

-- The tests of the page and its size, which a request comes with.
abbrev pub check_page : ℤ → ℤ → Result (Unit {0})
check_page page size =
    require (ltb_ℤ (pos 0) size && leb_ℤ size (pos 100)) invalid_request_page_size
    >> require (ltb_ℤ (pos 0) page) invalid_request_page

abbrev pub starting : Result Bytes → Result Bytes
starting (ok k) = ok k
starting (err e) = err invalid_request_hash
starting panic = panic

module _ (s : Stores) (x : External) where
  -- The entry of the starting hash, or the first one.
  unfoldable pub account_start : s.Txn → Bytes → Result Bytes
  account_start txn start =
      let given =
        starting (to_account_by_address s x txn start >>= λ a. ok (Account.key a.address)) in
      if is_empty start then ok (codes "table-account-") else given

  -- AccountPaging: an account that cannot be decoded is left out.
  unfoldable pub account_paging : s.Txn → Bytes → ℤ → ℤ → Result (List Account)
  account_paging txn start page size = do
    check_page page size
    from ← account_start txn start
    let first = first_item page size
    walk (in_page first size) (λ n. leb_ℤ (add64 first size) (pos n))
        (λ v. attempt (decode (Account.from_json x) v)) 0
        (s.iterate txn from (codes "table-account-"))

  -- GossipPaging, with pages of ten
  unfoldable pub gossip_paging : ℤ → s.Txn → ℤ → Result (List Gossip)
  gossip_paging now txn page = do
    require (ltb_ℤ (pos 0) page) invalid_request
    let first = first_item page (pos 10)
    walk (λ n. leb_ℤ first (pos n) && leb_ℤ (pos n) (add64 first (pos 9)))
        (λ n. ltb_ℤ (add64 first (pos 9)) (pos n))
        (λ v. attempt (decode (Gossip.from_json x now) v)) 0
        (s.iterate txn (codes "table-gossip-") (codes "table-gossip-"))

  -- ToTransactionByKey sets the transients, and the loop sets them again.
  unfoldable pub load_indexed : ℤ → s.Txn → Value → Result (Option Transaction)
  load_indexed now txn v = do
    t ← to_transaction_by_key s x now txn (bytes_of v)
    t' ← set_transients s x now txn t
    ok (some t')

  unfoldable pub index_start : ℤ → s.Txn → (Transaction → Bytes) → Bytes → Bytes → Result Bytes
  index_start now txn index_key prefix start =
      let given =
        starting (to_transaction_by_key s x now txn (key start) >>= λ t. ok (index_key t)) in
      if is_empty start then ok prefix else given

  -- The common part of ToTransactionsByFromAddress and ToTransactionsByToAddress.
  unfoldable pub index_paging :
      ℤ → s.Txn → (Transaction → Bytes) → Bytes → Bytes → ℤ → ℤ → Result (List Transaction)
  index_paging now txn index_key prefix start page size = do
    check_page page size
    from ← index_start now txn index_key prefix start
    let first = first_item page size
    l ←
        walk (in_page first size) (λ n. ltb_ℤ (add64 first size) (pos n)) (load_indexed now txn) 0
          (s.iterate txn from prefix)
    ok (sort_by_time false l)

  unfoldable pub to_transactions_by_from_address :
      ℤ → s.Txn → Bytes → Bytes → ℤ → ℤ → Result (List Transaction)
  to_transactions_by_from_address now txn address =
      index_paging now txn from_key (codes "key-transaction-from-" ++ address)

  unfoldable pub to_transactions_by_to_address :
      ℤ → s.Txn → Bytes → Bytes → ℤ → ℤ → Result (List Transaction)
  to_transactions_by_to_address now txn address =
      index_paging now txn to_key (codes "key-transaction-to-" ++ address)

  abbrev all_items : ℕ → Bool
  all_items n = true

  abbrev no_stop : ℕ → Bool
  no_stop n = false

  -- ToTransactionsByFromAddressOld and ToTransactionsByToAddressOld, by the prefix, and
  -- ToTransactionsByType, which does not sort
  unfoldable pub all_indexed : ℤ → s.Txn → Bytes → Result (List Transaction)
  all_indexed now txn prefix =
      walk all_items no_stop (load_indexed now txn) 0 (s.iterate txn prefix prefix)

  unfoldable pub to_transactions_by_type : ℤ → s.Txn → ℕ → Result (List Transaction)
  to_transactions_by_type now txn type =
      all_indexed now txn (codes "key-transaction-type-" ++ decimal (pos type))

  unfoldable pub to_transactions_by_from_address_old : ℤ → s.Txn → Bytes → Result (List Transaction)
  to_transactions_by_from_address_old now txn address =
      all_indexed now txn (codes "key-transaction-from-" ++ address) >>= λ l.
      ok (sort_by_time false l)

  unfoldable pub to_transactions_by_to_address_old : ℤ → s.Txn → Bytes → Result (List Transaction)
  to_transactions_by_to_address_old now txn address =
      all_indexed now txn (codes "key-transaction-to-" ++ address) >>= λ l.
      ok (sort_by_time false l)

  -- ToTransactions: every stored transaction, with its transients set once
  unfoldable pub to_transactions : ℤ → s.Txn → Result (List Transaction)
  to_transactions now txn = do
    l ←
        walk all_items no_stop
          (λ v. do
            t ← decode (Transaction.from_json x now) v
            t' ← set_transients s x now txn t
            ok (some t'))
          0 (s.iterate txn (codes "table-transaction-") (codes "table-transaction-"))
    ok (sort_by_time false l)

  -- ToAccountsByName: an account that cannot be loaded is left out.
  unfoldable pub to_accounts_by_name : Bytes → s.Txn → Result (List Account)
  to_accounts_by_name name txn =
      let prefix = codes "key-account-name-" ++ name in
      walk all_items no_stop (λ v. attempt (to_account_by_address s x txn (bytes_of v))) 0
        (s.iterate txn prefix prefix)
