-- ===== src/Types/Transaction.antt =====
-- commons/types/transaction.go: the record, and its form in JSON.
pub mod Signing
pub mod Verified
pub mod RoundTrip
use disgo.Prelude.{
  ℕ, ◌+◌, ◌%◌, ◌*◌, Bool, true, false, not, ◌&&◌, Option, none, some, List, [], ◌∷◌, ℤ, pos, negsuc,
  ltb_ℤ, eqb_ℤ, ◌+ℤ◌, if◌then◌else◌, ◌==◌,
}
use disgo.Prelude.Text.{Bytes, codes}
use disgo.Crypto.{External}
use disgo.Types.Constants.{tx_future_limit}
use disgo.Types.Errors.{
  Error, Result, ok, err, panic, ◌>>=◌, ◌>>◌, require, must_be_number, must_be_array,
  invalid_abi_field, time_too_far_ahead, time_negative,
}
use disgo.Types.Json.{
  float_items, Json, null, num, str, arr, obj, end, Items, nil, cons, Fields, put, find, as_map,
  read_string, read_number,
}
use disgo.Types.Rumor
use disgo.Types.Rumor.{Rumor}
use disgo.Types.Receipt
use disgo.Types.Receipt.{Receipt, is_empty, no_items}

pub record Transaction : Type 0 where
  pub hash : Bytes
  -- a byte
  pub type : ℕ
  pub from : Bytes
  pub to : Bytes
  -- an int64
  pub value : ℤ
  pub code : Bytes
  pub abi : Bytes
  pub method : Bytes
  pub params : Items
  -- an int64, in milliseconds
  pub time : ℤ
  pub signature : Bytes
  pub hertz : ℤ
  pub receipt : Receipt
  pub gossip : List Rumor
  pub from_name : Bytes
  pub to_name : Bytes

-- &Transaction{}
abbrev pub empty : Transaction
empty = record {
  hash = [];
  type = 0;
  from = [];
  to = [];
  value = pos 0;
  code = [];
  abi = [];
  method = [];
  params = nil;
  time = pos 0;
  signature = [];
  hertz = pos 0;
  receipt = Receipt.empty;
  gossip = [];
  from_name = [];
  to_name = [];
}

rumor_items : List Rumor → Items
rumor_items [] = nil
rumor_items (r ∷ rs) = cons (Rumor.marshal r) (rumor_items rs)

abbrev no_rumors : List Rumor → Bool
no_rumors [] = true
no_rumors (r ∷ rs) = false

module _ (x : External) where
  unfoldable pub json_fields : Transaction → Fields
  unfolding rumor_items
  json_fields t =
      (put false (codes "hash") (str t.hash) (
        put false (codes "type") (num (pos t.type)) (
          put false (codes "from") (str t.from) (
            put (is_empty t.to) (codes "to") (str t.to) (
              put (eqb_ℤ t.value (pos 0)) (codes "value") (num t.value) (
                put (is_empty t.code) (codes "code") (str t.code) (
                  put (is_empty t.abi) (codes "abi") (str t.abi) (
                    put (is_empty t.method) (codes "method") (str t.method) (
                      put (no_items t.params) (codes "params") (arr t.params) (
                        put false (codes "time") (num t.time) (
                          put false (codes "signature") (str t.signature) (
                            put false (codes "hertz") (num t.hertz) (
                              put false (codes "receipt") (Receipt.marshal x t.receipt) (
                                put (no_rumors t.gossip) (codes "gossip")
                                  (arr (rumor_items t.gossip))
                                  (put (is_empty t.from_name) (codes "fromName") (str t.from_name) (
                                    put (is_empty t.to_name) (codes "toName") (str t.to_name)
                                      end))))))))))))))))

  -- MarshalJSON
  unfoldable pub marshal : Transaction → Json
  marshal t = obj (json_fields t)

-- checkTime, at `now` in milliseconds.
unfoldable pub check_time : ℤ → ℤ → Result ℤ
check_time now tx_time =
    if ltb_ℤ (now +ℤ pos tx_future_limit) tx_time
    then err time_too_far_ahead
    else if ltb_ℤ tx_time (pos 0)
    then err time_negative
    else ok tx_time

-- byte(x)
abbrev to_byte : ℤ → ℕ
to_byte (pos n) = n % 256
to_byte (negsuc n) = (255 * (n + 1)) % 256

time_or : ℤ → ℤ → Option Json → Fields → Result ℤ
unfolding check_time
time_or now old none m = ok old
time_or now old (some null) m = ok old
time_or now old (some _) m = read_number (codes "time") old m >>= check_time now

-- `.(string)` whose second result is dropped.
abbrev text_of : Option Json → Bytes
text_of (some (str s)) = s
text_of _ = []

abi_or : Option Json → Bytes → Fields → Result Bytes
abi_or none old m = ok old
abi_or (some null) old m = ok old
abi_or (some _) old m = do
  abi ← read_string (codes "abi") old m
  require
      (not (
        not (is_empty (text_of (find (codes "to") m)))
        && not (is_empty (text_of (find (codes "method") m)))
        && is_empty abi))
      invalid_abi_field
  ok abi

items_or : Items → Option Json → Result Items
items_or old none = ok old
items_or old (some null) = ok old
items_or old (some (arr items)) = ok (float_items items)
items_or old (some _) = err (must_be_array (codes "params"))

-- The hertz are read from the field `type`, where a field `hertz` is there.
hertz_or : ℤ → Option Json → Fields → Result ℤ
hertz_or old none m = ok old
hertz_or old (some null) m = ok old
hertz_or old (some _) m = elim (find (codes "type") m) [
  | some (num n) ↦ read_number (codes "type") old m
  | _ ↦ err (must_be_number (codes "hertz"))
]

receipt_or : External → Receipt → Option Json → Result Receipt
receipt_or x old none = ok old
receipt_or x old (some null) = ok old
receipt_or x old (some j) = Receipt.unmarshal_lenient x Receipt.empty j

module _ (x : External) where
  -- UnmarshalJSON into an empty transaction (ToTransactionFromJson), at `now` in milliseconds.
  unfoldable pub from_json : ℤ → Json → Result Transaction
  unfolding time_or abi_or items_or hertz_or receipt_or
  from_json now j = do
    m ← as_map j
    hash ← read_string (codes "hash") [] m
    type ← read_number (codes "type") (pos 0) m
    from ← read_string (codes "from") [] m
    to ← read_string (codes "to") [] m
    value ← read_number (codes "value") (pos 0) m
    code ← read_string (codes "code") [] m
    abi ← abi_or (find (codes "abi") m) [] m
    method ← read_string (codes "method") [] m
    params ← items_or nil (find (codes "params") m)
    time ← time_or now (pos 0) (find (codes "time") m) m
    signature ← read_string (codes "signature") [] m
    hertz ← hertz_or (pos 0) (find (codes "hertz") m) m
    receipt ← receipt_or x Receipt.empty (find (codes "receipt") m)
    ok (record empty {
      hash = hash;
      type = to_byte type;
      from = from;
      to = to;
      value = value;
      code = code;
      abi = abi;
      method = method;
      params = params;
      time = time;
      signature = signature;
      hertz = hertz;
      receipt = receipt;
    })
