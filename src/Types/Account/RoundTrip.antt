-- ===== src/Types/Account/RoundTrip.antt =====
-- Decoding of encoded accounts (MarshalJSON and UnmarshalJSON of commons/types/account.go).
use disgo.Prelude.{
  ap, sym, ◌∙◌, ℕ, ◌<◌, ◌≡◌, ◌∙◌, sym, refl, some, none, [], ℤ, pos, IsExact, float_int64,
  float_int64_self, arith, wrap64_self,
}
use disgo.Prelude.Text.{codes}
use disgo.Crypto.{External}
use disgo.Types.Errors.{ok, ok-injective, ◌>>=◌, >>=-eq-ok}
use disgo.Types.Json.{Json, obj, as_map, must_string, must_number, fields, find, Fields}
use disgo.Types.Account.{
  Account, marshal, from_json, json_fields, balance_or, as_uint64, nonce_or, time_or, int64_of,
}

module _ (x : External) (a : Account) (b : ℤ) where
  abbrev m : Fields
  m = json_fields x a b

  address_field : must_string (codes "address") [] m ≡ ok a.address
  unfolding json_fields must_string
  address_field = simp fields

  private_key_field : must_string (codes "privateKey") [] m ≡ ok a.private_key
  unfolding json_fields must_string
  private_key_field = simp fields (ground arith)

  name_field : must_string (codes "name") [] m ≡ ok a.name
  unfolding json_fields must_string
  name_field = simp fields

  hash_field : must_string (codes "transactionHash") [] m ≡ ok a.transaction_hash
  unfolding json_fields must_string
  hash_field = simp fields (ground arith)

  balance_field : IsExact b → balance_or none (find (codes "balance") m) ≡ ok (some b)
  unfolding json_fields balance_or
  balance_field h = simp (fields, float_int64_self b h)

  updated_field :
      (u : ℤ)
      → x.parse_time (x.format_time a.updated) ≡ some u
      → time_or x (pos 0) (find (codes "updated") m) ≡ ok u
  unfolding json_fields time_or
  updated_field u h = simp (fields, h)

  created_field :
      (u : ℤ)
      → x.parse_time (x.format_time a.created) ≡ some u
      → time_or x (pos 0) (find (codes "created") m) ≡ ok u
  unfolding json_fields time_or
  created_field u h = simp (fields, h)

  nonce_field : a.nonce < 9007199254740992 → nonce_or 0 (find (codes "nonce") m) m ≡ ok a.nonce
  unfolding json_fields nonce_or must_number
  nonce_field h = simp (fields, float_int64_self (pos a.nonce) (omega arith))

  nonce_any : (n : ℕ) × (nonce_or 0 (find (codes "nonce") m) m ≡ ok n)
  unfolding json_fields nonce_or must_number
  nonce_any = (as_uint64 (float_int64 (pos a.nonce)), simp fields)

  -- MarshalJSON of a balance that a float64 holds writes that balance.
  written : a.balance ≡ some b → IsExact b → marshal x a ≡ ok (obj m)
  unfolding marshal int64_of
  written e h = rw (e, int64_of) (rw (wrap64_self b (omega arith)))

  abbrev read_back : ℤ → ℤ → ℕ → Account
  read_back updated created nonce = record a {
    balance = some b;
    updated = updated;
    created = created;
    nonce = nonce;
    root = [];
    code_hash = [];
  }

-- What an account must satisfy to be read back from its JSON.
pub record IsStorable (x : External) (a : Account) : Type 0 where
  pub nonce : a.nonce < 9007199254740992
  pub updated : x.parse_time (x.format_time a.updated) ≡ some a.updated
  pub created : x.parse_time (x.format_time a.created) ≡ some a.created

-- An account whose balance fits a float64 is read back from its JSON unchanged, but for the root and
-- the hash of the code, which are not stored.
pub from_json-marshal_account :
    (x : External) (a : Account) (b : ℤ)
    → a.balance ≡ some b
    → IsExact b
    → IsStorable x a
    → (marshal x a >>= from_json x) ≡ ok (record a { root = []; code_hash = [] })
unfolding marshal from_json as_map int64_of
from_json-marshal_account x a b e h s = simp (
  e,
  wrap64_self b (omega arith),
  address_field x a b,
  private_key_field x a b,
  name_field x a b,
  balance_field x a b h,
  hash_field x a b,
  updated_field x a b a.updated s.updated,
  created_field x a b a.created s.created,
  nonce_field x a b s.nonce,
)

-- Every text that the program writes for an instant is read back as some instant.
abbrev pub ParsesTimes : External → Type 0
ParsesTimes x = (t : ℤ) → (u : ℤ) × (x.parse_time (x.format_time t) ≡ some u)

-- An account that was written, whatever its times and its nonce, is read back with its address and
-- its balance, if this fits a float64.
pub from_json_balance :
    (x : External) (a : Account) (b : ℤ) {j : Json}
    → ParsesTimes x
    → a.balance ≡ some b
    → IsExact b
    → marshal x a ≡ ok j
    → (c : Account) × (from_json x j ≡ ok c) × (c.address ≡ a.address) × (c.balance ≡ some b)
unfolding from_json as_map
from_json_balance x a b times e h made =
    let (u, updated) = times a.updated in
    let (v, created) = times a.created in
    let (n, nonce) = nonce_any x a b in
    let form = ok-injective (sym (written x a b e h) ∙ made) in
    (
      read_back x a b u v n,
      rw (← form) (
          simp (
            address_field x a b,
            private_key_field x a b,
            name_field x a b,
            balance_field x a b h,
            hash_field x a b,
            updated_field x a b u updated,
            created_field x a b v created,
            nonce,
          )),
      refl,
      refl,
    )

-- Whatever an account that was written is read back as, it is one of the same address.
pub from_json_address :
    (x : External) (a c : Account) (j : Json)
    → marshal x a ≡ ok j
    → from_json x j ≡ ok c
    → c.address ≡ a.address
unfolding marshal from_json as_map
from_json_address x a c j made read =
    let (b, _, form) = >>=-eq-ok (int64_of a.balance) _ made in
    let m : Fields = json_fields x a b in
    let read' : from_json x (obj m) ≡ ok c = ap (from_json x) (ok-injective form) ∙ read in
    let (address, e, h₁) = >>=-eq-ok (must_string (codes "address") [] m) _ read' in
    let (_, _, h₂) = >>=-eq-ok (must_string (codes "privateKey") [] m) _ h₁ in
    let (_, _, h₃) = >>=-eq-ok (must_string (codes "name") [] m) _ h₂ in
    let (_, _, h₄) = >>=-eq-ok (balance_or none (find (codes "balance") m)) _ h₃ in
    let (_, _, h₅) = >>=-eq-ok (must_string (codes "transactionHash") [] m) _ h₄ in
    let (_, _, h₆) = >>=-eq-ok (time_or x (pos 0) (find (codes "updated") m)) _ h₅ in
    let (_, _, h₇) = >>=-eq-ok (time_or x (pos 0) (find (codes "created") m)) _ h₆ in
    let (_, _, h₈) = >>=-eq-ok (nonce_or 0 (find (codes "nonce") m) m) _ h₇ in
    ap (λ (d : Account). d.address) (sym (ok-injective h₈))
    ∙ ok-injective (sym e ∙ address_field x a b)
