-- ===== src/Types/Rumor.antt =====
-- commons/types/rumor.go: a delegate's signed statement that it has seen a transaction.
pub mod Signing
pub mod RoundTrip
pub mod TimeDelta
use disgo.Prelude.{
  ℕ, ◌+◌, ◌*◌, ◌≡◌, Bool, true, false, not, ◌&&◌, Option, none, some, List, [], ◌∷◌, ◌++◌, ℤ, pos,
  length, if◌then◌else◌, ◌==◌,
}
use mathlib.Core.Option
use disgo.Prelude.Text.{Bytes, codes, ◌=ₛ◌, hex_decode, hex_encode, write_int64}
use disgo.Crypto.{External, new_hash, to_public_key, to_address, new_signature, verify_signature}
use disgo.Types.Constants.{address_length, hash_length, signature_length}
use disgo.Types.Errors.{Result, ok, ◌>>=◌}
use disgo.Types.Json.{Json, num, str, obj, end, put, as_map, must_string, must_number}

pub record Rumor : Type 0 where
  pub hash : Bytes
  pub address : Bytes
  pub transaction_hash : Bytes
  pub time : ℤ
  pub signature : Bytes

abbrev pub empty : Rumor
empty = record { hash = []; address = []; transaction_hash = []; time = pos 0; signature = [] }

unfoldable pub marshal : Rumor → Json
marshal r = obj (
    put false (codes "hash") (str r.hash) (
      put false (codes "address") (str r.address) (
        put false (codes "transactionHash") (str r.transaction_hash) (
          put false (codes "time") (num r.time)
            (put false (codes "signature") (str r.signature) end)))))

-- Every field that is there and not null overwrites the one of `r`.
unfoldable pub unmarshal_into : Rumor → Json → Result Rumor
unmarshal_into r j = do
  m ← as_map j
  hash ← must_string (codes "hash") r.hash m
  address ← must_string (codes "address") r.address m
  transaction_hash ← must_string (codes "transactionHash") r.transaction_hash m
  time ← must_number (codes "time") r.time m
  signature ← must_string (codes "signature") r.signature m
  ok (record {
    hash = hash;
    address = address;
    transaction_hash = transaction_hash;
    time = time;
    signature = signature;
  })

-- ToRumorFromJson
unfoldable pub from_json : Json → Result Rumor
unfolding unmarshal_into
from_json j = unmarshal_into empty j

module _ (x : External) where
  unfoldable pub rumor_hash : ℤ → Option Bytes → Option Bytes → Bytes
  rumor_hash time none t = []
  rumor_hash time (some a) none = []
  rumor_hash time (some a) (some t) = hex_encode (new_hash x (a ++ (t ++ write_int64 time)))

  -- NewHash: the empty text where the address or the transaction's hash is no hex text.
  unfoldable pub hash_of : Rumor → Bytes
  unfolding rumor_hash
  hash_of r = rumor_hash r.time (hex_decode r.address) (hex_decode r.transaction_hash)

  -- The signature's part of Verify, once the hash and the signature are decoded.
  unfoldable pub signed_by : Bytes → Option Bytes → Option Bytes → Bool
  signed_by address none s = false
  signed_by address (some h) none = false
  signed_by address (some h) (some s) = elim (to_public_key x h s) [
    | none ↦ false
    | some key ↦ (hex_encode (to_address x key) =ₛ address) && verify_signature x key h s
  ]

  unfoldable pub verify : Rumor → Bool
  verify r =
      if not (length r.hash == hash_length * 2)
      then false
      else if not (length r.address == address_length * 2)
      then false
      else if not (length r.transaction_hash == hash_length * 2)
      then false
      else if not (length r.signature == signature_length * 2)
      then false
      else if not (r.hash =ₛ hash_of r)
      then false
      else signed_by r.address (hex_decode r.hash) (hex_decode r.signature)

  -- NewRumor from `hex.DecodeString(privateKey)` on: the key and the hash, where they decode.
  unfoldable pub sign_rumor : Rumor → Option Bytes → Option Bytes → Option Rumor
  sign_rumor r none h = none
  sign_rumor r (some key) none = none
  sign_rumor r (some key) (some h) =
      Option.map (λ s. record r { signature = hex_encode s }) (new_signature x key h)

  -- NewRumor at the time `now`; `none` is its nil.
  unfoldable pub new_rumor : Bytes → Bytes → Bytes → ℤ → Option Rumor
  new_rumor private_key address transaction_hash now =
      let r : Rumor = record {
        hash = [];
        address = address;
        transaction_hash = transaction_hash;
        time = now;
        signature = [];
      } in
      let h : Bytes = hash_of r in
      sign_rumor (record r { hash = h }) (hex_decode private_key) (hex_decode h)
