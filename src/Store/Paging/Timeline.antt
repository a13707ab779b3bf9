-- ===== src/Store/Paging/Timeline.antt =====
-- TransactionPaging of commons/types/transaction.go: a page of all transactions, the latest first.
pub mod Page
use disgo.Prelude.{
  ℕ, zero, suc, ◌+◌, ◌-◌, Bool, true, false, Option, none, some, List, [], ◌∷◌, ◌++◌, map, ℤ, pos,
  negsuc, leb_ℤ, ltb_ℤ, add64, sub64, mul64, length, get_elem?, ◌==◌, if◌then◌else◌,
}
use disgo.Prelude.Text.{Bytes, codes, ◌=ₛ◌}
use disgo.Crypto.{External}
use disgo.Types.Errors.{Result, ok, err, panic, ◌>>=◌, ◌>>◌, invalid_request_starting_hash}
use disgo.Types.Receipt.{is_empty}
use disgo.Types.Transaction.{Transaction}
use disgo.Sorting.{less_text, sort_by}
use disgo.Store.Defs.{Value, Stores}
use disgo.Store.Records.{attempt}
use disgo.Store.Records.Transactions.{key, to_transaction_by_key}
use disgo.Store.Paging.{check_page}

abbrev add_front : ℕ → List Bytes → List Bytes
add_front b [] = (b ∷ []) ∷ []
add_front b (part ∷ parts) = (b ∷ part) ∷ parts

-- strings.Split(s, "-")
unfoldable pub split : Bytes → List Bytes
split [] = [] ∷ []
split (b ∷ s) = let parts = split s in if b == b'-' then [] ∷ parts else add_front b parts

abbrev pub index {ℓ} : {A : Type ℓ} → Option A → Result A
index none = panic
index (some a) = ok a

-- k[4] of the parts of a key, which are key, transaction, time, the time and the hash.
unfoldable pub hash_of_key : Bytes → Result Bytes
hash_of_key k = index (get_elem? (split k) 4)

-- timestamps[idx]
unfoldable pub at_int : List Bytes → ℤ → Result Bytes
at_int ts (pos i) = index (get_elem? ts i)
at_int ts (negsuc i) = panic

-- The loop that looks for the starting hash: its place, and what it is if none was asked for.
unfoldable pub find_start : Bytes → ℕ → List Bytes → Result (Option (ℕ × Bytes))
find_start start idx [] = ok none
find_start start idx (k ∷ ts) = do
  hash ← hash_of_key k
  let wanted = if is_empty start then hash else start
  let next = find_start wanted (suc idx) ts
  if wanted =ₛ hash then ok (some (idx, wanted)) else next

abbrev pub none_yet : List Bytes → Bool
none_yet [] = true
none_yet (k ∷ ts) = false

abbrev pub page_size_of : ℤ → ℕ
page_size_of (pos n) = n
page_size_of (negsuc n) = 0

-- types.PagingResult
pub record PagingResult : Type 0 where
  pub count : ℤ
  pub page_start : Bytes

module _ (s : Stores) (x : External) (now : ℤ) (txn : s.Txn) where
  -- The transaction of a key of the index, nil if it cannot be loaded.
  unfoldable pub load_key : Bytes → Result (Option Transaction)
  load_key k = do hash ← hash_of_key k; attempt (to_transaction_by_key s x now txn (key hash))

  -- The loop over the items of the page, of which `n` are left.
  unfoldable pub collect : List Bytes → ℤ → ℕ → ℤ → Result (List (Option Transaction))
  collect ts total zero idx = ok []
  collect ts total (suc n) idx =
      let rest = collect ts total n (add64 idx (pos 1)) in
      let skip = collect ts total n idx in
      let read = do
        k ← at_int ts idx
        let here = load_key k >>= λ t. rest >>= λ l. ok (t ∷ l)
        if is_empty k then ok [] else here
      in if ltb_ℤ idx total then read else skip

  found :
      List Bytes → ℤ → ℤ → Option (ℕ × Bytes) → Result (List (Option Transaction) × PagingResult)
  found ts page size none = err invalid_request_starting_hash
  found ts page size (some (idx, start)) = do
    let total = sub64 (pos (length ts)) (pos idx)
    l ← collect ts total (page_size_of size) (sub64 (add64 (pos idx) (mul64 page size)) size)
    ok (l, record { count = total; page_start = start })

  -- The keys of the index by time, in descending order.
  unfoldable pub timestamps : List Bytes
  timestamps =
      sort_by (λ a b. less_text b a)
        (map (λ (e : Bytes × Value). e.0)
          (s.iterate txn (codes "key-transaction-time-") (codes "key-transaction-time-")))

  -- TransactionPaging
  unfoldable pub transaction_paging :
      Bytes → ℤ → ℤ → Result (List (Option Transaction) × PagingResult)
  unfolding found
  transaction_paging start page size = do
    check_page page size
    let ts = timestamps
    if none_yet ts
        then ok ([], record { count = pos 0; page_start = [] })
        else find_start start 0 ts >>= found ts page size
