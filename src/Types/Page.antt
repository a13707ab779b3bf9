-- ===== src/Types/Page.antt =====
-- commons/types/page.go: a page of transactions, its key and its JSON. Times are nanoseconds.
pub mod RoundTrip
use disgo.Prelude.{false, [], ◌++◌, ℤ, pos}
use disgo.Prelude.Text.{Bytes, codes, decimal}
use disgo.Crypto.{External}
use disgo.Types.Errors.{Result, ok, ◌>>=◌}
use disgo.Types.Json.{Json, num, str, obj, end, Fields, put, find, as_map, must_string, must_number}
use disgo.Types.Account.{time_or}

pub record Page : Type 0 where
  pub hash : Bytes
  pub number : ℤ
  pub transactions_hash : Bytes
  pub receipts_hash : Bytes
  pub state_hash : Bytes
  pub bw_used : ℤ
  pub created : ℤ

-- Key, of the number
unfoldable pub key : ℤ → Bytes
key number = codes "Page-" ++ decimal number

module _ (x : External) where
  unfoldable pub json_fields : Page → Fields
  json_fields p = put false (codes "hash") (str p.hash) (
      put false (codes "number") (num p.number) (
        put false (codes "transactionsHash") (str p.transactions_hash) (
          put false (codes "receiptsHash") (str p.receipts_hash) (
            put false (codes "stateHash") (str p.state_hash) (
              put false (codes "bwUsed") (num p.bw_used)
                (put false (codes "created") (str (x.format_time p.created)) end))))))

  -- MarshalJSON
  unfoldable pub marshal : Page → Json
  marshal p = obj (json_fields p)

  -- UnmarshalJSON into an empty page (ToPageFromJson)
  unfoldable pub from_json : Json → Result Page
  from_json j = do
    m ← as_map j
    hash ← must_string (codes "hash") [] m
    number ← must_number (codes "number") (pos 0) m
    transactions_hash ← must_string (codes "transactionsHash") [] m
    receipts_hash ← must_string (codes "receiptsHash") [] m
    state_hash ← must_string (codes "stateHash") [] m
    bw_used ← must_number (codes "bwUsed") (pos 0) m
    created ← time_or x (pos 0) (find (codes "created") m)
    ok (record {
      hash = hash;
      number = number;
      transactions_hash = transactions_hash;
      receipts_hash = receipts_hash;
      state_hash = state_hash;
      bw_used = bw_used;
      created = created;
    })
