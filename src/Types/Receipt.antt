-- ===== src/Types/Receipt.antt =====
-- commons/types/receipt.go: what became of a transaction. Times are nanoseconds.
pub mod RoundTrip
use disgo.Prelude.{
  ◌≡◌, Bool, true, false, not, ◌&&◌, Option, none, some, List, [], ◌∷◌, ℤ, pos, ◌++◌, if◌then◌else◌,
}
use disgo.Prelude.Text.{Bytes, codes, ◌=ₛ◌}
use disgo.Crypto.{External}
use disgo.Types.Constants.{Status, pending, internal_error, status_text}
use disgo.Types.Errors.{Error, Result, ok, err, panic, ◌>>=◌, bad_time, error_text}
use disgo.Types.Json.{
  float_items, Json, null, str, arr, obj, end, Items, nil, cons, Fields, put, find, as_map,
  must_string,
}

pub record Receipt : Type 0 where
  pub transaction_hash : Bytes
  pub status : Bytes
  pub human_readable_status : Bytes
  pub contract_address : Bytes
  pub contract_result : Items
  pub created : ℤ

-- &Receipt{}; the zero time is written as 0.
abbrev pub empty : Receipt
empty = record {
  transaction_hash = [];
  status = [];
  human_readable_status = [];
  contract_address = [];
  contract_result = nil;
  created = pos 0;
}

-- Key
unfoldable pub key : Bytes → Bytes
key transaction_hash = codes "table-receipt-" ++ transaction_hash

-- NewReceipt at the time `now`
unfoldable pub new_receipt : Bytes → ℤ → Receipt
new_receipt hash now = record empty {
  transaction_hash = hash;
  status = status_text pending;
  created = now;
}

-- NewReceiptWithStatus
unfoldable pub new_receipt_with_status : Bytes → Bytes → Bytes → ℤ → Receipt
new_receipt_with_status hash status text now = record empty {
  transaction_hash = hash;
  status = status;
  human_readable_status = text;
  created = now;
}

-- NewReceiptWithError
unfoldable pub new_receipt_with_error : Bytes → Error → ℤ → Receipt
unfolding new_receipt_with_status
new_receipt_with_error hash e now =
    new_receipt_with_status hash (status_text internal_error) (error_text e) now

-- What every failed step of an execution does: `receipt.Status = StatusInternalError` and the text.
unfoldable pub with_error : Receipt → Error → Receipt
with_error r e = record r {
  status = status_text internal_error;
  human_readable_status = error_text e;
}

abbrev pub is_empty : Bytes → Bool
is_empty [] = true
is_empty (b ∷ s) = false

abbrev pub no_items : Items → Bool
no_items nil = true
no_items (cons j items) = false

-- `contractAddress` is read if it is neither nil nor "".
address_or : Bytes → Option Json → Result Bytes
address_or old none = ok old
address_or old (some null) = ok old
address_or old (some (str [])) = ok old
address_or old (some (str (b ∷ s))) = ok (b ∷ s)
address_or old (some _) = panic

-- The numbers of `contractResult` stay float64.
assert_items : Items → Option Json → Result Items
assert_items old none = ok old
assert_items old (some null) = ok old
assert_items old (some (arr items)) = ok (float_items items)
assert_items old (some _) = panic

module _ (x : External) where
  unfoldable pub marshal : Receipt → Json
  marshal r = obj (
      put false (codes "transactionHash") (str r.transaction_hash) (
        put false (codes "status") (str r.status) (
          put (is_empty r.human_readable_status) (codes "humanReadableStatus")
            (str r.human_readable_status)
            (put (is_empty r.contract_address) (codes "contractAddress") (str r.contract_address) (
              put (no_items r.contract_result) (codes "contractResult") (arr r.contract_result)
                (put false (codes "created") (str (x.format_time r.created)) end))))))

  parsed : ℤ → Option ℤ → Error → ℤ × Option Error
  parsed old none e = (old, some e)
  parsed old (some t) e = (t, none)

  -- time.Parse of the field: the time, and the error that ends the decoding.
  read_time : ℤ → Option Json → Result (ℤ × Option Error)
  unfolding parsed
  read_time old none = ok (old, none)
  read_time old (some null) = ok (old, none)
  read_time old (some (str s)) = ok (parsed old (x.parse_time s) (bad_time s))
  read_time old (some _) = panic

  -- The fields of the map, with the error of the last one: what has been set stays set.
  unfoldable pub unmarshal_fields : Receipt → Fields → Result (Receipt × Option Error)
  unfolding address_or assert_items read_time
  unmarshal_fields r m = do
    transaction_hash ← must_string (codes "transactionHash") r.transaction_hash m
    status ← must_string (codes "status") r.status m
    human ← must_string (codes "humanReadableStatus") r.human_readable_status m
    address ← address_or r.contract_address (find (codes "contractAddress") m)
    result ← assert_items r.contract_result (find (codes "contractResult") m)
    created ← read_time r.created (find (codes "created") m)
    ok (
      record {
        transaction_hash = transaction_hash;
        status = status;
        human_readable_status = human;
        contract_address = address;
        contract_result = result;
        created = created.0;
      },
      created.1,
    )

  -- UnmarshalJSON into `r` whose error the caller drops: the receipt as far as it was set.
  unfoldable pub unmarshal_lenient : Receipt → Json → Result Receipt
  unfolding unmarshal_fields
  unmarshal_lenient r j = elim (as_map j) [
    | ok m ↦ unmarshal_fields r m >>= λ p. ok p.0
    | err e ↦ ok r
    | panic ↦ panic
  ]

  finish : Receipt × Option Error → Result Receipt
  finish (r, none) = ok r
  finish (r, some e) = err e

  -- ToReceiptFromJson
  unfoldable pub from_json : Json → Result Receipt
  unfolding unmarshal_fields finish
  from_json j = do m ← as_map j; r ← unmarshal_fields empty m; finish r
