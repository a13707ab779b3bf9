-- ===== src/Store/Paging/Pages.antt =====
-- That the paging functions of commons/types return the entries of one page.
use disgo.Prelude.{
  ℕ, zero, suc, ◌+◌, ◌-◌, ◌*◌, ◌≤◌, ◌<◌, ◌≡◌, refl, ap, ◌∙◌, Bool, true, false, ◌&&◌, Option, List,
  ◌++◌, take, drop, ℤ, pos, negsuc, leb, ltb, leb_ℤ, ltb_ℤ, add64, pos_part, add64_pos, sub64_pos,
  mul64_pos, arith,
}
use disgo.Prelude.Text.{Bytes, codes}
use disgo.Crypto.{External}
use disgo.Types.Errors.{
  Result, ok, err, panic, ◌>>=◌, >>=-eq-ok, require, require-eq-ok, invalid_request,
  invalid_request_page, invalid_request_page_size,
}
use disgo.Types.Account
use disgo.Types.Account.{Account}
use disgo.Store.Defs.{Value, Stores}
use disgo.Store.Records.{decode, attempt}
use disgo.Store.Paging.{
  first_item, in_page, walk, check_page, account_start, account_paging, index_start, load_indexed,
  index_paging, gossip_paging, to_transactions_by_from_address, to_transactions_by_to_address,
}
use disgo.Store.Records.Transactions.{from_key, to_key}
use disgo.Types.Transaction.{Transaction}
use disgo.Types.Gossip
use disgo.Sorting.{sort_by_time}
use disgo.Store.Paging.Window.{load_all, walk_lem}

and_left : (a b : Bool) → (a && b) ≡ true → a ≡ true
and_left a b h = ground arith

-- The numbers of the items of a page, as far as int does not overflow.
abbrev pub max_int : ℕ
max_int = 9223372036854775807

module _ (q size : ℕ) (bound : suc q * size < max_int) where
  first_item_lem : 0 < size → first_item (pos (suc q)) (pos size) ≡ pos (q * size + 1)
  unfolding first_item
  first_item_lem h =
      rw (mul64_pos (suc q) size (omega (arith, bound)), sub64_pos size 1 h (grind arith))
        (sub64_pos (suc q * size) (size - 1) (grind arith) (omega (arith, bound))
          ∙ ap pos (grind arith))

  last_item : add64 (pos (q * size + 1)) (pos size) ≡ pos (suc q * size + 1)
  last_item = add64_pos (q * size + 1) size (grind arith) ∙ ap pos (grind arith)

  in_page_lem :
      (n : ℕ)
      → in_page (pos (q * size + 1)) (pos size) (suc n)
        ≡ (leb (q * size) n && ltb n (q * size + size))
  unfolding in_page
  in_page_lem n =
      let next : suc q * size ≡ q * size + size = grind arith in rw (last_item, next) (ground arith)

-- The entries of one page: the first one has the number 0.
abbrev pub page_of : ℤ → ℤ → List (Bytes × Value) → List (Bytes × Value)
page_of page size items = take (pos_part size) (drop ((pos_part page - 1) * pos_part size) items)

module _ {A : Type 0} (load : Value → Result (Option A)) (items : List (Bytes × Value)) where
  walk_page :
      (stop : ℕ → Bool) (q size : ℕ)
      → suc q * size < max_int
      → 0 < size
      → ((n : ℕ) → stop n ≡ true → q * size + size ≤ n)
      → walk (in_page (first_item (pos (suc q)) (pos size)) (pos size)) stop load 0 items
        ≡ load_all load (page_of (pos (suc q)) (pos size) items)
  walk_page stop q size bound some_size late = rw (first_item_lem q size bound some_size) (
      walk_lem load _ stop (q * size) size (in_page_lem q size bound) late items
      ∙ ap (λ (m : ℕ). load_all load (take size (drop (m * size) items))) (omega arith))

page_end :
    (q size : ℕ)
    → suc q * size < max_int
    → 0 < size
    → add64 (first_item (pos (suc q)) (pos size)) (pos size) ≡ pos (suc q * size + 1)
page_end q size bound h = rw (first_item_lem q size bound h) (last_item q size bound)

past_page : (q size n : ℕ) → suc q * size + 1 ≤ n → q * size + size ≤ n
past_page q size n h = grind arith

positive : (z : ℤ) → ltb_ℤ (pos 0) z ≡ true → (n : ℕ) × (z ≡ pos (suc n))
positive (pos zero) h = absurd (ground arith)
positive (pos (suc n)) h = (n, refl)
positive (negsuc n) h = absurd (ground arith)

checked :
    (page size : ℤ) {u : Unit {0}}
    → check_page page size ≡ ok u
    → (q : ℕ) × (m : ℕ) × (page ≡ pos (suc q)) × (size ≡ pos (suc m))
checked page size e =
    let (u, sized, paged) =
      >>=-eq-ok (require (ltb_ℤ (pos 0) size && leb_ℤ size (pos 100)) invalid_request_page_size) _
        e in
    let (q, is_page) = positive page (require-eq-ok _ invalid_request_page paged) in
    let (m, is_size) =
      positive size (and_left _ _ (require-eq-ok _ invalid_request_page_size sized)) in
    (q, m, is_page, is_size)

>>=_cong_ok :
    {A B : Type 0} (r : Result A) (f g : A → Result B)
    → ((a : A) → r ≡ ok a → f a ≡ g a)
    → (r >>= f) ≡ (r >>= g)
>>=_cong_ok (ok a) f g h = h a refl
>>=_cong_ok (err e) f g h = refl
>>=_cong_ok panic f g h = refl

-- A loop whose break comes past the page, for a page and a size that were checked.
module _ {A : Type 0} (load : Value → Result (Option A)) (items : List (Bytes × Value))
    (stop : ℤ → ℕ → Bool) (late : (m n : ℕ) → stop (pos m) n ≡ true → m ≤ n) where
  page_at :
      (q m : ℕ)
      → suc q * suc m < max_int
      → walk
          (in_page (first_item (pos (suc q)) (pos (suc m))) (pos (suc m)))
          (stop (add64 (first_item (pos (suc q)) (pos (suc m))) (pos (suc m))))
          load
          0
          items
        ≡ load_all load (page_of (pos (suc q)) (pos (suc m)) items)
  page_at q m bound =
      let some_size : 0 < suc m = omega arith in
      rw (page_end q (suc m) bound some_size) (
        walk_page load items (stop (pos (suc q * suc m + 1))) q (suc m) bound some_size
          (λ n t. past_page q (suc m) n (late (suc q * suc m + 1) n t)))

  pub checked_page :
      (page size : ℤ) {u : Unit {0}}
      → pos_part page * pos_part size < max_int
      → check_page page size ≡ ok u
      → walk
          (in_page (first_item page size) size)
          (stop (add64 (first_item page size) size))
          load
          0
          items
        ≡ load_all load (page_of page size items)
  checked_page page size bound e =
      let (q, m, is_page, is_size) = checked page size e in
      rw (is_page, is_size) (page_at q m (rw (is_page, is_size) at bound))

at_end : (m n : ℕ) → leb_ℤ (pos m) (pos n) ≡ true → m ≤ n
at_end m n h = ground arith

past_end : (m n : ℕ) → ltb_ℤ (pos m) (pos n) ≡ true → m ≤ n
past_end m n h = ground arith

-- The tests of GossipPaging, whose pages have ten items
ten_late :
    (q : ℕ)
    → suc q * 10 < max_int
    → add64 (first_item (pos (suc q)) (pos 10)) (pos 9) ≡ pos (q * 10 + 10)
ten_late q bound =
    rw (first_item_lem q 10 bound (omega arith))
      (add64_pos (q * 10 + 1) 9 (omega (arith, bound)) ∙ ap pos (omega arith))

gossip_page :
    {A : Type 0}
    → (load : Value → Result (Option A)) (items : List (Bytes × Value)) (q : ℕ)
    → suc q * 10 < max_int
    → walk
        (λ n.
          leb_ℤ (first_item (pos (suc q)) (pos 10)) (pos n)
          && leb_ℤ (pos n) (add64 (first_item (pos (suc q)) (pos 10)) (pos 9)))
        (λ n. ltb_ℤ (add64 (first_item (pos (suc q)) (pos 10)) (pos 9)) (pos n))
        load
        0
        items
      ≡ load_all load (page_of (pos (suc q)) (pos 10) items)
gossip_page load items q bound =
    rw (ten_late q bound, first_item_lem q 10 bound (omega arith))
      (walk_lem load (λ n. leb_ℤ (pos (q * 10 + 1)) (pos n) && leb_ℤ (pos n) (pos (q * 10 + 10)))
          (λ n. ltb_ℤ (pos (q * 10 + 10)) (pos n)) (q * 10) 10 (λ n. ground arith)
          (λ n h. ground arith) items
        ∙ ap (λ (m : ℕ). load_all load (take 10 (drop (m * 10) items))) (omega arith))

module _ (s : Stores) (x : External) (page size : ℤ) where
  -- What the paging functions return: of the entries from the starting one on, those of the page.
  abbrev pub ArePages : ℤ → s.Txn → Bytes → Bytes → Type 0
  ArePages now txn address start =
      (account_paging s x txn start page size ≡ (
        check_page page size >>= λ u. account_start s x txn start >>= λ from.
        load_all (λ v. attempt (decode (Account.from_json x) v))
          (page_of page size (s.iterate txn from (codes "table-account-")))))
      × (to_transactions_by_from_address s x now txn address start page size ≡ (
          check_page page size >>= λ u.
          index_start s x now txn from_key (codes "key-transaction-from-" ++ address) start
          >>= λ from.
              load_all (load_indexed s x now txn)
                (page_of page size (s.iterate txn from (codes "key-transaction-from-" ++ address)))
              >>= λ l. ok (sort_by_time false l)))
      × (to_transactions_by_to_address s x now txn address start page size ≡ (
          check_page page size >>= λ u.
          index_start s x now txn to_key (codes "key-transaction-to-" ++ address) start >>= λ from.
          load_all (load_indexed s x now txn)
            (page_of page size (s.iterate txn from (codes "key-transaction-to-" ++ address)))
          >>= λ l. ok (sort_by_time false l)))
      × (gossip_paging s x now txn page ≡ (
          require (ltb_ℤ (pos 0) page) invalid_request >>= λ u.
          load_all (λ v. attempt (decode (Gossip.from_json x now) v))
            (page_of page (pos 10)
              (s.iterate txn (codes "table-gossip-") (codes "table-gossip-")))))

module _ (s : Stores) (x : External) (page size : ℤ)
    (bound : pos_part page * pos_part size < max_int) where
  account_paging-IsPage :
      (txn : s.Txn) (start : Bytes)
      → account_paging s x txn start page size ≡ (
          check_page page size >>= λ u. account_start s x txn start >>= λ from.
          load_all
            (λ v. attempt (decode (Account.from_json x) v))
            (page_of page size (s.iterate txn from (codes "table-account-"))))
  unfolding account_paging
  account_paging-IsPage txn start = >>=_cong_ok (check_page page size) _ _ λ u e.
      >>=_cong_ok (account_start s x txn start) _ _ λ from e'.
        checked_page (λ v. attempt (decode (Account.from_json x) v)) _ (λ m n. leb_ℤ m (pos n))
          at_end page size bound e

  index_paging-IsPage :
      (now : ℤ) (txn : s.Txn) (index_key : Transaction → Bytes) (prefix start : Bytes)
      → index_paging s x now txn index_key prefix start page size ≡ (
          check_page page size >>= λ u. index_start s x now txn index_key prefix start >>= λ from.
          load_all (load_indexed s x now txn) (page_of page size (s.iterate txn from prefix))
          >>= λ l. ok (sort_by_time false l))
  unfolding index_paging
  index_paging-IsPage now txn index_key prefix start = >>=_cong_ok (check_page page size) _ _ λ u e.
      >>=_cong_ok (index_start s x now txn index_key prefix start) _ _ λ from e'.
        ap (λ (r : Result (List Transaction)). r >>= λ l. ok (sort_by_time false l))
          (checked_page (load_indexed s x now txn) _ (λ m n. ltb_ℤ m (pos n)) past_end page size
            bound e)

  -- The paging functions check the page and its size, from 1 to 100, and find the entry to start at;
  -- then, where the numbers of the items do not overflow, they load the entries of the page in order:
  -- of the accounts those that can be decoded, and of the transactions all, in which case they are
  -- sorted by descending time. Pages of gossip have ten entries.
  pub paging-ArePages :
      (now : ℤ) (txn : s.Txn) (address start : Bytes)
      → pos_part page * 10 < max_int
      → ArePages s x page size now txn address start
  unfolding to_transactions_by_from_address to_transactions_by_to_address gossip_paging
  paging-ArePages now txn address start tens = (
    account_paging-IsPage txn start,
    index_paging-IsPage now txn from_key (codes "key-transaction-from-" ++ address) start,
    index_paging-IsPage now txn to_key (codes "key-transaction-to-" ++ address) start,
    >>=_cong_ok (require (ltb_ℤ (pos 0) page) invalid_request) _ _ λ u e.
        let (q, is) = positive page (require-eq-ok _ invalid_request e) in
        rw is (gossip_page (λ v. attempt (decode (Gossip.from_json x now) v)) _ q (rw is at tens)),
  )
