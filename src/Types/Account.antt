-- ===== src/Types/Account.antt =====
-- commons/types/account.go: the record, its keys, and its form in JSON. Times are nanoseconds.
pub mod RoundTrip
use disgo.Prelude.{
  ℕ, ◌+◌, ◌-◌, ◌%◌, Bool, ◌&&◌, Option, none, some, List, [], ◌∷◌, ◌++◌, map, ℤ, pos, negsuc,
  wrap64, float_int64, leb, false, if◌then◌else◌,
}
use disgo.Prelude.Text.{Bytes, codes}
use disgo.Crypto.{External}
use disgo.Types.Errors.{Result, ok, err, panic, ◌>>=◌, bad_time}
use disgo.Types.Json.{
  Json, null, num, str, obj, end, Fields, put, find, as_map, must_string, must_number,
}
use disgo.Types.Receipt.{is_empty}

pub record Account : Type 0 where
  pub address : Bytes
  pub private_key : Bytes
  pub name : Bytes
  -- a *big.Int, which may be nil
  pub balance : Option ℤ
  pub transaction_hash : Bytes
  pub updated : ℤ
  pub created : ℤ
  pub nonce : ℕ
  -- of the storage trie; not part of the JSON
  pub root : Bytes
  pub code_hash : Bytes

-- &Account{}; the zero time is written as 0.
abbrev pub empty : Account
empty = record {
  address = [];
  private_key = [];
  name = [];
  balance = none;
  transaction_hash = [];
  updated = pos 0;
  created = pos 0;
  nonce = 0;
  root = [];
  code_hash = [];
}

-- Key
unfoldable pub key : Bytes → Bytes
key address = codes "table-account-" ++ address

-- strings.ToLower on ASCII
to_lower : ℕ → ℕ
to_lower c = if leb b'A' c && leb c b'Z' then c + 32 else c

-- NameKey
unfoldable pub name_key : Bytes → Bytes
unfolding to_lower
name_key name = codes "key-account-name-" ++ map to_lower name

-- `this.Balance.Int64()`
unfoldable pub int64_of : Option ℤ → Result ℤ
int64_of none = panic
int64_of (some b) = ok (wrap64 b)

-- uint64(x)
abbrev pub as_uint64 : ℤ → ℕ
as_uint64 (pos n) = n
as_uint64 (negsuc n) = 18446744073709551615 - n % 18446744073709551616

balance_or : Option ℤ → Option Json → Result (Option ℤ)
balance_or old none = ok old
balance_or old (some null) = ok old
balance_or old (some (num n)) = ok (some (float_int64 n))
balance_or old (some _) = panic

nonce_or : ℕ → Option Json → Fields → Result ℕ
nonce_or old none m = ok old
nonce_or old (some null) m = ok old
nonce_or old (some j) m = must_number (codes "nonce") (pos 0) m >>= λ n. ok (as_uint64 n)

module _ (x : External) where
  unfoldable pub json_fields : Account → ℤ → Fields
  json_fields a balance = put false (codes "address") (str a.address) (
      put (is_empty a.private_key) (codes "privateKey") (str a.private_key) (
        put false (codes "name") (str a.name) (
          put false (codes "balance") (num balance) (
            put (is_empty a.transaction_hash) (codes "transactionHash") (str a.transaction_hash) (
              put false (codes "updated") (str (x.format_time a.updated)) (
                put false (codes "created") (str (x.format_time a.created))
                  (put false (codes "nonce") (num (pos a.nonce)) end)))))))

  -- MarshalJSON, which panics on a nil balance
  unfoldable pub marshal : Account → Result Json
  marshal a = do balance ← int64_of a.balance; ok (obj (json_fields a balance))

  parsed : Option ℤ → Bytes → Result ℤ
  parsed none s = err (bad_time s)
  parsed (some t) s = ok t

  unfoldable pub time_or : ℤ → Option Json → Result ℤ
  unfolding parsed
  time_or old none = ok old
  time_or old (some null) = ok old
  time_or old (some (str s)) = parsed (x.parse_time s) s
  time_or old (some _) = panic

  -- UnmarshalJSON into an empty account (ToAccountFromJson)
  unfoldable pub from_json : Json → Result Account
  unfolding balance_or nonce_or
  from_json j = do
    m ← as_map j
    address ← must_string (codes "address") [] m
    private_key ← must_string (codes "privateKey") [] m
    name ← must_string (codes "name") [] m
    balance ← balance_or none (find (codes "balance") m)
    transaction_hash ← must_string (codes "transactionHash") [] m
    updated ← time_or (pos 0) (find (codes "updated") m)
    created ← time_or (pos 0) (find (codes "created") m)
    nonce ← nonce_or 0 (find (codes "nonce") m) m
    ok (record empty {
      address = address;
      private_key = private_key;
      name = name;
      balance = balance;
      transaction_hash = transaction_hash;
      updated = updated;
      created = created;
      nonce = nonce;
    })
