-- ===== src/Types/Authentication.antt =====
-- commons/types/authentication.go: a node's signed statement of the time, which Verify of
-- Store/Records/Authenticity takes once it is known which address should have made it.
use disgo.Prelude.{◌≡◌, true, false, [], ◌++◌, ℤ, pos}
use disgo.Prelude.Text.{Bytes, codes, ◌=ₛ◌, =ₛ_iff, hex_decode, hex_encode, write_int64}
use disgo.Crypto.{External, to_public_key, to_address, new_signature, verify_signature}
use disgo.Crypto
use disgo.Types.Errors.{
  Result, ok, ◌>>=◌, ◌>>◌, require, >>=-eq-ok, require-eq-ok, undecodable_hash,
  undecodable_signature, no_public_key, address_mismatch, invalid_signature,
  undecodable_private_key, signing_failed, or_error, or_error-eq-ok,
}
use disgo.Types.Json.{Json, num, str, obj, end, put, as_map, read_string, read_number}
use disgo.Prelude.{some}

pub record Authentication : Type 0 where
  pub address : Bytes
  pub hash : Bytes
  pub time : ℤ
  pub signature : Bytes

abbrev pub empty : Authentication
empty = record { address = []; hash = []; time = pos 0; signature = [] }

-- UnmarshalJSON into an empty value: the address is not read.
unfoldable pub from_json : Json → Result Authentication
from_json j = do
  m ← as_map j
  hash ← read_string (codes "hash") empty.hash m
  time ← read_number (codes "time") empty.time m
  signature ← read_string (codes "signature") empty.signature m
  ok (record empty { hash = hash; time = time; signature = signature })

unfoldable pub marshal : Authentication → Json
marshal a = obj (
    put false (codes "address") (str a.address) (
      put false (codes "hash") (str a.hash) (
        put false (codes "time") (num a.time)
          (put false (codes "signature") (str a.signature) end))))

unfoldable pub key : Bytes → Bytes
key h = codes "table-authentication-" ++ h

module _ (x : External) where
  -- NewHash
  unfoldable pub new_hash : ℤ → Bytes
  new_hash time = hex_encode (Crypto.new_hash x (write_int64 time))

  -- Verify from the decoding of the hash to the test of the signature.
  unfoldable pub check_signature : Authentication → Bytes → Result (Unit {0})
  check_signature a address = do
    h ← or_error undecodable_hash (hex_decode a.hash)
    s ← or_error undecodable_signature (hex_decode a.signature)
    public_key ← or_error no_public_key (to_public_key x h s)
    require (hex_encode (to_address x public_key) =ₛ address) address_mismatch
        >> require (verify_signature x public_key h s) invalid_signature

  -- The public key that is recovered from the signature of the hash is the address's, and verifies.
  pub record IsSigned (a : Authentication) (address : Bytes) : Type 0 where
    pub hash_bytes : Bytes
    pub signature_bytes : Bytes
    pub public_key : Bytes
    pub hash_text : hex_decode a.hash ≡ some hash_bytes
    pub signature_text : hex_decode a.signature ≡ some signature_bytes
    pub recovered : to_public_key x hash_bytes signature_bytes ≡ some public_key
    pub speaker : hex_encode (to_address x public_key) ≡ address
    pub verified : verify_signature x public_key hash_bytes signature_bytes ≡ true

  pub check_signature-IsSigned :
      (a : Authentication) (address : Bytes) {u : Unit {0}}
      → check_signature a address ≡ ok u
      → IsSigned a address
  unfolding check_signature
  check_signature-IsSigned a address e =
      let (h, e₁, f₁) = >>=-eq-ok _ _ e in
      let (sb, e₂, f₂) = >>=-eq-ok _ _ f₁ in
      let (public_key, e₃, f₃) = >>=-eq-ok _ _ f₂ in
      let (u, e₄, f₄) = >>=-eq-ok _ _ f₃ in
      record {
        hash_bytes = h;
        signature_bytes = sb;
        public_key = public_key;
        hash_text = or_error-eq-ok undecodable_hash _ e₁;
        signature_text = or_error-eq-ok undecodable_signature _ e₂;
        recovered = or_error-eq-ok no_public_key _ e₃;
        speaker = (=ₛ_iff _ address).0 (require-eq-ok _ address_mismatch e₄);
        verified = require-eq-ok _ invalid_signature f₄;
      }

  -- NewSignature
  unfoldable pub new_signature_of : Authentication → Bytes → Result Bytes
  new_signature_of a private_key = do
    h ← or_error undecodable_hash (hex_decode a.hash)
    key ← or_error undecodable_private_key (hex_decode private_key)
    s ← or_error signing_failed (new_signature x key h)
    ok (hex_encode s)

  -- GetDerivedAddress
  unfoldable pub get_derived_address : Authentication → Result Bytes
  get_derived_address a = do
    h ← or_error undecodable_hash (hex_decode a.hash)
    s ← or_error undecodable_signature (hex_decode a.signature)
    public_key ← or_error no_public_key (to_public_key x h s)
    ok (hex_encode (to_address x public_key))

  -- NewAuthentication at the time `now`, of the account with this key and address
  unfoldable pub new_authentication : Bytes → Bytes → ℤ → Result Authentication
  new_authentication private_key address now = do
    let unsigned = record empty { hash = new_hash now; time = now }
    signature ← new_signature_of unsigned private_key
    let signed = record unsigned { signature = signature }
    derived ← get_derived_address signed
    require (derived =ₛ address) address_mismatch >> ok signed
