-- ===== src/Dapos/Api.antt =====
-- dapos/dapos_api.go: the answers to the clients of a node.
pub mod Pending
use disgo.Prelude.{
  ℕ, zero, suc, ◌+◌, ◌-◌, ◌*◌, Bool, true, false, ◌&&◌, ◌||◌, Option, none, some, List, [], ◌∷◌,
  ◌++◌, ℤ, pos, negsuc, ltb, leb, ◌==◌, length, if◌then◌else◌,
}
use disgo.Prelude.Text.{Bytes, codes}
use disgo.Crypto.{External}
use disgo.Types.Account.{Account}
use disgo.Types.Constants.{
  Status, not_found, internal_error, not_delegate, status_text, unavailable_feature,
}
use disgo.Types.Constants
use disgo.Types.Errors.{Error, Result, ok, err, panic, ◌>>=◌, key_not_found, other}
use disgo.Types.Gossip.{Gossip}
use disgo.Types.Json.{Json}
use disgo.Types.Node.{Node}
use disgo.Types.Receipt.{Receipt}
use disgo.Types.Transaction.{Transaction}
use disgo.Store.{Stores}
use disgo.Store.Records.{
  to_receipt_from_cache, to_receipt_from_key, to_account_by_address, to_gossip_by_transaction_hash,
}
use disgo.Store.Records.Transactions.{to_transaction_by_hash, to_transaction_from_cache}
use disgo.Store.Paging.{
  account_paging, gossip_paging, to_transactions_by_from_address, to_transactions_by_to_address,
}
use disgo.Store.Paging.Timeline.{PagingResult, transaction_paging}
use disgo.Disgover.Seed.{known_delegates}
use disgo.Queue.{Queue}
use disgo.Queue
use disgo.Dapos.Peers.{Delegate, Reply, Moment}
use disgo.Dapos.Gossip.{GossipQueue, GossipState, Reason, Response, start_gossiping}

-- types.Response, with the payload's type: the status, the text that explains it, and the payload,
-- with which Paging stands where there is one. The time of its creation is left out.
pub record Answer (A : Type 0) : Type 0 where
  pub status : Status
  pub reason : Reason
  pub payload : Option A

module _ {A : Type 0} where
  -- NewResponse
  abbrev pub new_answer : Answer A
  new_answer = record { status = Status.ok; reason = Reason.said (codes "Ok"); payload = none }

  abbrev pub with_payload : A → Answer A
  with_payload a = record new_answer { payload = some a }

  abbrev pub failed_with : Error → Answer A
  failed_with e = record new_answer { status = internal_error; reason = Reason.failed e }

  abbrev pub for_delegates : Answer A
  for_delegates = record new_answer {
    status = not_delegate;
    reason = Reason.said (codes "This node is not a delegate. Please select a delegate node.");
  }

  -- The answer of a handler that sets the status alone where its object is not found: the text stays
  -- that of a new response.
  abbrev pub found_or : Result A → Result (Answer A)
  found_or (ok a) = ok (with_payload a)
  found_or (err key_not_found) = ok (record new_answer { status = not_found })
  found_or (err e) = ok (record new_answer { status = internal_error })
  found_or panic = panic

  abbrev pub listed : Result A → Result (Answer A)
  listed (ok a) = ok (with_payload a)
  listed (err e) = ok (failed_with e)
  listed panic = panic

  -- "Delegate?"
  abbrev pub if_delegate : Bool → Result (Answer A) → Result (Answer A)
  if_delegate true answer = answer
  if_delegate false answer = ok for_delegates

is_digits : Bytes → Bool
is_digits [] = true
is_digits (c ∷ s) = leb b'0' c && leb c b'9' && is_digits s

number : ℕ → Bytes → ℕ
number n [] = n
number n (c ∷ s) = number (n * 10 + (c - b'0')) s

abbrev pub bad_number : Bytes → Error
bad_number s = other (codes "strconv.Atoi: parsing " ++ s)

-- An unsigned part of at least one digit, up to the largest magnitude of its sign
unsigned : Bytes → ℕ → (ℕ → ℤ) → Bytes → Result ℤ
unfolding is_digits number
unsigned text most sign [] = err (bad_number text)
unsigned text most sign (c ∷ s) =
    if is_digits (c ∷ s) && leb (number 0 (c ∷ s)) most
    then ok (sign (number 0 (c ∷ s)))
    else err (bad_number text)

abbrev negated : ℕ → ℤ
negated zero = pos 0
negated (suc n) = negsuc n

-- strconv.Atoi
unfoldable pub atoi : Bytes → Result ℤ
unfolding unsigned
atoi [] = err (bad_number [])
atoi (c ∷ s) =
    if c == b'-'
    then unsigned (c ∷ s) 9223372036854775808 negated s
    else if c == b'+'
    then unsigned (c ∷ s) 9223372036854775807 pos s
    else unsigned (c ∷ s) 9223372036854775807 pos (c ∷ s)

module _ {A : Type 0} where
  -- The numbers of the page and of its size, before anything else is looked at.
  abbrev pub with_number : Bytes → (ℤ → Result (Answer A)) → Result (Answer A)
  with_number text next = elim (atoi text) [
    | ok n ↦ next n
    | err e ↦ ok (failed_with e)
    | panic ↦ panic
  ]

module _ (s : Stores) (x : External) (delegate : Bool) (now : ℤ) (db : s.Db) where
  -- GetDelegateNodes, of any node
  unfoldable pub get_delegate_nodes : s.Cache → Result (Answer (List Node))
  get_delegate_nodes c = listed (known_delegates s x (s.new_transaction db) c)

  receipt_or : Bytes → Result Receipt → Result (Answer Receipt)
  receipt_or hash (ok r) = ok (with_payload r)
  receipt_or hash (err key_not_found) = ok (record new_answer {
    status = not_found;
    reason = Reason.said (codes "unable to find receipt [hash=" ++ (hash ++ codes "]"));
  })
  receipt_or hash (err e) = ok (failed_with e)
  receipt_or hash panic = panic

  unfoldable pub cached_receipt_or : Bytes → Result Receipt → Result (Answer Receipt)
  unfolding receipt_or
  cached_receipt_or hash (ok r) = ok (with_payload r)
  cached_receipt_or hash (err e) =
      receipt_or hash
        (to_receipt_from_key s x (s.new_transaction db) (codes "table-receipt-" ++ hash))
  cached_receipt_or hash panic = panic

  -- GetReceipt: from the cache, then from the database
  unfoldable pub get_receipt : Bytes → s.Cache → Result (Answer Receipt)
  unfolding cached_receipt_or
  get_receipt hash c =
      if_delegate delegate (cached_receipt_or hash (to_receipt_from_cache s c hash))

  -- GetAccount
  unfoldable pub get_account : Bytes → Result (Answer Account)
  get_account address =
      if_delegate delegate (found_or (to_account_by_address s x (s.new_transaction db) address))

  -- `tx, _ :=`, where an error leaves nil
  unfoldable pub cached_or : Result Transaction → Result (Answer Transaction)
  cached_or (ok t) = ok (with_payload t)
  cached_or (err e) = ok (record new_answer { status = not_found })
  cached_or panic = panic

  unfoldable pub stored_or : Bytes → s.Cache → Result Transaction → Result (Answer Transaction)
  unfolding cached_or
  stored_or hash c (ok t) = ok (with_payload t)
  stored_or hash c (err key_not_found) = cached_or (to_transaction_from_cache s x c hash)
  stored_or hash c (err e) = ok (record new_answer { status = internal_error })
  stored_or hash c panic = panic

  -- GetTransaction: from the database, then from the cache
  unfoldable pub get_transaction : Bytes → s.Cache → Result (Answer Transaction)
  unfolding stored_or
  get_transaction hash c =
      if_delegate delegate
        (stored_or hash c (to_transaction_by_hash s x now (s.new_transaction db) hash))

  -- GetTransactions
  unfoldable pub get_transactions :
      Bytes → Bytes → Bytes → Result (Answer (List (Option Transaction) × PagingResult))
  get_transactions page size start = with_number page λ p. with_number size λ n.
      if_delegate delegate (listed (transaction_paging s x now (s.new_transaction db) start p n))

  -- GetTransactionsByFromAddress and GetTransactionsByToAddress
  unfoldable pub get_transactions_by_from_address :
      Bytes → Bytes → Bytes → Bytes → Result (Answer (List Transaction))
  get_transactions_by_from_address address page size start = with_number page λ p.
      with_number size λ n.
        if_delegate delegate (
          listed (to_transactions_by_from_address s x now (s.new_transaction db) address start p n))

  unfoldable pub get_transactions_by_to_address :
      Bytes → Bytes → Bytes → Bytes → Result (Answer (List Transaction))
  get_transactions_by_to_address address page size start = with_number page λ p.
      with_number size λ n.
        if_delegate delegate
          (listed (to_transactions_by_to_address s x now (s.new_transaction db) address start p n))

  -- GetAccounts
  unfoldable pub get_accounts : Bytes → Bytes → Bytes → Result (Answer (List Account))
  get_accounts page size start = with_number page λ p.
      with_number size
        λ n. if_delegate delegate (listed (account_paging s x (s.new_transaction db) start p n))

  -- GetGossips
  unfoldable pub get_gossips : Bytes → Result (Answer (List Gossip))
  get_gossips page =
      with_number page
        λ p. if_delegate delegate (listed (gossip_paging s x now (s.new_transaction db) p))

  -- GetGossip
  unfoldable pub get_gossip : Bytes → Result (Answer Gossip)
  get_gossip hash =
      if_delegate delegate
        (found_or (to_gossip_by_transaction_hash s x now (s.new_transaction db) hash))

-- DumpQueue
unfoldable pub dump_queue : Queue → Answer (List Gossip)
dump_queue q = with_payload (Queue.dump q)

-- ToBeSupported
unfoldable pub to_be_supported : Answer Bytes
to_be_supported = with_payload (status_text unavailable_feature)

-- NewTransaction
unfoldable pub new_transaction :
    (s : Stores) (q : GossipQueue)
    → External
    → Delegate
    → (Node → Json → Reply)
    → Moment
    → Bool
    → Transaction
    → List Node
    → s.Db
    → GossipState s q
    → Result (Response × GossipState s q)
new_transaction s q x me remote now true t delegates db st =
    start_gossiping s q x me remote now t delegates db st
new_transaction s q x me remote now false t delegates db st = ok (
  record {
    status = not_delegate;
    reason = Reason.said (codes "This node is not a delegate. Please select a delegate node.");
  },
  st,
)
