-- ===== src/Types/Transaction/RoundTrip.antt =====
-- Decoding of encoded transactions (MarshalJSON and UnmarshalJSON of commons/types/transaction.go).
use disgo.Prelude.{
  ap, ◌∙◌, Bool, not, ◌&&◌, Option, none, if◌then◌else◌, ℕ, ◌<◌, ◌≡◌, refl, some, [], ◌∷◌, ℤ, pos,
  IsExact, eqb_ℤ, negsuc, true, float_int64_self, float_int64, arith, false,
}
use disgo.Crypto.{External}
use disgo.Types.Errors.{ok}
use disgo.Types.Json.{
  as_map, read_string, read_number, fields, find, Fields, nil, Json, str, num, AreExact,
  float_items_self,
}
use disgo.Prelude.Text.{codes, Bytes}
use disgo.Types.Receipt
use disgo.Types.Receipt.{Receipt}
use disgo.Types.Receipt.RoundTrip.{unmarshal_lenient-marshal}
use disgo.Types.Transaction.{
  Transaction, marshal, from_json, check_time, json_fields, to_byte, items_or, abi_or, time_or,
  hertz_or, receipt_or,
}

-- What a stored transaction satisfies: a byte for its type, and numbers that a float64 holds.
pub record IsStorable (t : Transaction) : Type 0 where
  pub byte : t.type < 256
  pub value : IsExact t.value
  pub time : IsExact t.time
  pub params : AreExact t.params
  pub result : AreExact t.receipt.contract_result

-- What a decoded transaction has: no transient fields, and the type for its hertz.
abbrev pub decoded : Transaction → Transaction
decoded t = record t { hertz = pos t.type; gossip = []; from_name = []; to_name = [] }

-- `byte(float64(type))`
type_byte : (n : ℕ) → n < 256 → to_byte (pos n) ≡ n
type_byte n h = omega arith

receipt_or-marshal :
    (x : External) (r : Receipt)
    → AreExact r.contract_result
    → x.parse_time (x.format_time r.created) ≡ some r.created
    → receipt_or x Receipt.empty (some (Receipt.marshal x r)) ≡ ok r
unfolding receipt_or Receipt.marshal
receipt_or-marshal x r e h = unmarshal_lenient-marshal x r e h

and_false : (b : Bool) → (b && false) ≡ false
and_false true = refl
and_false false = refl

abi_or_text :
    (s : Bytes) (m : Fields) (o : Option Json)
    → o ≡ (if not (Receipt.is_empty s) then some (str s) else none)
    → read_string (codes "abi") [] m ≡ ok s
    → abi_or o [] m ≡ ok s
unfolding abi_or
abi_or_text [] m o e h = rw e
abi_or_text (b ∷ s) m o e h = rw e (rw h (rw and_false))

zero_value : (v : ℤ) → eqb_ℤ v (pos 0) ≡ true → v ≡ pos 0
zero_value (pos n) h = ground arith
zero_value (negsuc n) h = ground arith

module _ (x : External) (t : Transaction) where
  abbrev m : Fields
  m = json_fields x t

  hash_field : read_string (codes "hash") [] m ≡ ok t.hash
  unfolding json_fields read_string
  hash_field = simp fields

  from_field : read_string (codes "from") [] m ≡ ok t.from
  unfolding json_fields read_string
  from_field = simp fields

  to_field : read_string (codes "to") [] m ≡ ok t.to
  unfolding json_fields read_string
  to_field = simp fields (ground arith)

  code_field : read_string (codes "code") [] m ≡ ok t.code
  unfolding json_fields read_string
  code_field = simp fields (ground arith)

  method_field : read_string (codes "method") [] m ≡ ok t.method
  unfolding json_fields read_string
  method_field = simp fields (ground arith)

  signature_field : read_string (codes "signature") [] m ≡ ok t.signature
  unfolding json_fields read_string
  signature_field = simp fields

  params_field : AreExact t.params → items_or nil (find (codes "params") m) ≡ ok t.params
  unfolding json_fields items_or
  params_field h = simp fields (ground (arith, float_items_self t.params h))

  abi_text : read_string (codes "abi") [] m ≡ ok t.abi
  unfolding json_fields read_string
  abi_text = simp fields (ground arith)

  abi_value :
      find (codes "abi") m ≡ (if not (Receipt.is_empty t.abi) then some (str t.abi) else none)
  unfolding json_fields
  abi_value = simp fields (ground arith)

  abi_field : abi_or (find (codes "abi") m) [] m ≡ ok t.abi
  abi_field = abi_or_text t.abi m (find (codes "abi") m) abi_value abi_text

  type_field :
      t.type < 256 → (n : ℤ) × (read_number (codes "type") (pos 0) m ≡ ok n) × (n ≡ pos t.type)
  unfolding json_fields read_number
  type_field h =
      (float_int64 (pos t.type), simp fields, float_int64_self (pos t.type) (omega arith))

  value_field : IsExact t.value → read_number (codes "value") (pos 0) m ≡ ok t.value
  unfolding json_fields read_number
  value_field h =
      simp (fields, float_int64_self t.value h)
        (ground (arith, float_int64_self t.value h, zero_value t.value))

  time_field :
      (now : ℤ)
      → IsExact t.time
      → check_time now t.time ≡ ok t.time
      → time_or now (pos 0) (find (codes "time") m) m ≡ ok t.time
  unfolding json_fields read_number time_or
  time_field now h c = simp (fields, float_int64_self t.time h, c)

  type_value : find (codes "type") m ≡ some (num (pos t.type))
  unfolding json_fields
  type_value = simp fields

  hertz_value : find (codes "hertz") m ≡ some (num t.hertz)
  unfolding json_fields
  hertz_value = simp fields

  hertz_field : t.type < 256 → hertz_or (pos 0) (find (codes "hertz") m) m ≡ ok (pos t.type)
  unfolding hertz_or
  hertz_field h =
      let (n, e, type) = type_field h in rw hertz_value (rw (type_value, hertz_or) (e ∙ ap ok type))

  receipt_field :
      AreExact t.receipt.contract_result
      → x.parse_time (x.format_time t.receipt.created) ≡ some t.receipt.created
      → receipt_or x Receipt.empty (find (codes "receipt") m) ≡ ok t.receipt
  unfolding json_fields receipt_or
  receipt_field e h = simp fields (receipt_or-marshal x t.receipt e h)

module _ (x : External) (now : ℤ) where
  -- A storable transaction, whose type is a byte and whose value, time, params and receipt's result
  -- have only numbers that fit a float64, is read back from its JSON, at a time at which its own is
  -- accepted and if its receipt's time is read back from its text; but its hertz become its type, and
  -- its gossip and the names of its accounts are gone.
  pub from_json-marshal_transaction :
      (t : Transaction)
      → IsStorable t
      → check_time now t.time ≡ ok t.time
      → x.parse_time (x.format_time t.receipt.created) ≡ some t.receipt.created
      → from_json x now (marshal x t) ≡ ok (decoded t)
  unfolding from_json marshal as_map
  from_json-marshal_transaction t s c h =
      let (n, e, type) = type_field x t s.byte in
      simp
        (
          hash_field x t,
          e,
          from_field x t,
          to_field x t,
          value_field x t s.value,
          code_field x t,
          abi_field x t,
          method_field x t,
          params_field x t s.params,
          time_field x t now s.time c,
          signature_field x t,
          hertz_field x t s.byte,
          receipt_field x t s.result h,
          type,
        )
        (ap (λ (k : ℕ). ok (record (decoded t) { type = k })) (type_byte t.type s.byte))
