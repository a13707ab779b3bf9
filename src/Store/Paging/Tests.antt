-- ===== src/Store/Paging/Tests.antt =====
-- Three transactions in the index by time, and three accounts, in pages.
use disgo.Prelude.{
  ◌+◌, ◌-◌, ◌*◌, ◌≡◌, refl, false, some, List, [], ◌∷◌, ◌++◌, All, take, drop, length, pos, arith,
}
use disgo.Prelude.Text.{Bytes, codes, has_prefix}
use disgo.Crypto.Toy.{toy}
use disgo.Types.Errors.{ok, ◌>>=◌}
use disgo.Types.Receipt.{is_empty}
use disgo.Sorting.{less_text, insert_by, sort_by}
use disgo.Store.Defs.{Value, text}
use disgo.Store.Assoc.{assoc_stores, entries}
use disgo.Store.Paging.Pages.{ArePages, paging-ArePages}
use disgo.Store.Paging.Timeline.{split, hash_of_key, find_start, timestamps, transaction_paging}
use disgo.Store.Paging.Timeline.Page.{load_keys, transaction_paging-IsPage}

abbrev time_entry : Bytes → Bytes × Value
time_entry name = (codes "key-transaction-time-" ++ name, text [])

abbrev db : List (Bytes × Value)
db = time_entry (codes "5-aa") ∷ time_entry (codes "7-cc") ∷ time_entry (codes "6-bb") ∷ []

abbrev latest_first : List Bytes
latest_first =
    (codes "key-transaction-time-7-cc")
    ∷ (codes "key-transaction-time-6-bb")
    ∷ (codes "key-transaction-time-5-aa")
    ∷ []

sorted : timestamps assoc_stores toy (pos 9) db ≡ latest_first
unfolding timestamps sort_by insert_by less_text entries has_prefix
sorted = refl

all_filled : All (λ k. is_empty k ≡ false) (timestamps assoc_stores toy (pos 9) db)
all_filled = rw sorted (refl, (refl, (refl, tt)))

second :
    find_start (codes "bb") 0 (timestamps assoc_stores toy (pos 9) db) ≡ ok (some (1, codes "bb"))
unfolding find_start hash_of_key split
second = rw sorted refl

-- From the second on, a page of two has one transaction, though there are two.
transaction_paging-IsPage_example :
    transaction_paging assoc_stores toy (pos 9) db (codes "bb") (pos 1) (pos 2) ≡ (
      let ts = timestamps assoc_stores toy (pos 9) db in
      load_keys assoc_stores toy (pos 9) db (take 2 (drop (1 + 0 * 2) (take (length ts - 1) ts)))
      >>= λ l. ok (l, record { count = pos (length ts - 1); page_start = codes "bb" }))
transaction_paging-IsPage_example =
    transaction_paging-IsPage assoc_stores toy (pos 9) db (codes "bb") (codes "bb") 0 2 1 refl
      all_filled (rw sorted (omega arith)) (omega arith) second

one_left :
    take 2 (
      drop (1 + 0 * 2) (
        take
          (length (timestamps assoc_stores toy (pos 9) db) - 1)
          (timestamps assoc_stores toy (pos 9) db)))
    ≡ (codes "key-transaction-time-6-bb") ∷ []
one_left = rw sorted refl

paging-ArePages_example : ArePages assoc_stores toy (pos 1) (pos 2) (pos 9) db (codes "aa") []
paging-ArePages_example =
    paging-ArePages assoc_stores toy (pos 1) (pos 2) (omega arith) (pos 9) db (codes "aa") []
      (omega arith)
