-- ===== src/Types/Errors.antt =====
-- Go's `error` values as the program tells them apart, and calls that may fail or panic.
use disgo.Prelude.{◌≡◌, refl, ap, Option, none, some, Bool, true, false}
use disgo.Prelude.Text.{Bytes, codes}

pub data Error : Type 0 where
  -- badger.ErrKeyNotFound, badger.ErrConflict, and any other error, with its text
  key_not_found conflict : Error
  other : Bytes → Error
  -- commons/types/constants.go
  not_found invalid_request invalid_request_page invalid_request_page_size : Error
  invalid_request_starting_hash invalid_request_hash : Error
  -- decoding of JSON
  not_an_object : Error
  must_be_string must_be_number must_be_array : Bytes → Error
  invalid_abi_field : Error
  bad_time : Bytes → Error
  time_too_far_ahead time_negative : Error
  -- verification
  invalid_hash invalid_from_address invalid_signature from_equals_to : Error
  invalid_to_address value_not_positive to_not_blank invalid_code invalid_abi : Error
  no_hash undecodable_hash undecodable_signature no_public_key address_mismatch : Error
  undecodable_from undecodable_to undecodable_code undecodable_private_key signing_failed : Error
  duplicate_authentication authentication_timed_out : Error
  empty_abi empty_code empty_method : Error

-- A call that panics, returns a value, or returns an error.
pub data Result {ℓ} (A : Type ℓ) : Type ℓ where
  panic : Result A
  ok : A → Result A
  err : Error → Result A

module _ {ℓ κ} {A : Type ℓ} {B : Type κ} where
  infixl 5 ◌>>=◌
  abbrev pub ◌>>=◌ : Result A → (A → Result B) → Result B
  panic >>= next = panic
  ok a >>= next = next a
  err e >>= next = err e

  -- The value and the rest of a chain that succeeded.
  pub >>=-eq-ok :
      (call : Result A) (next : A → Result B) {b : B}
      → (call >>= next) ≡ ok b
      → (a : A) × (call ≡ ok a) × (next a ≡ ok b)
  >>=-eq-ok panic next done = cc
  >>=-eq-ok (ok a) next done = (a, refl, done)
  >>=-eq-ok (err e) next done = cc

infixl 5 ◌>>◌
abbrev pub ◌>>◌ {ℓ} : {A : Type ℓ} → Result (Unit {0}) → Result A → Result A
check >> rest = check >>= λ u. rest

-- `if !test { return e }`
abbrev pub require : Bool → Error → Result (Unit {0})
require false e = err e
require true e = ok tt

-- The test of a `require` that was passed.
pub require-eq-ok : (test : Bool) (e : Error) {u : Unit {0}} → require test e ≡ ok u → test ≡ true
require-eq-ok false e passed = cc
require-eq-ok true e passed = refl

pub ok-injective {ℓ} : {A : Type ℓ} {a b : A} → ok a ≡ ok b → a ≡ b
ok-injective h = cc

-- A call of a library that fails with an error of the caller's.
abbrev pub or_error {ℓ} : {A : Type ℓ} → Error → Option A → Result A
or_error e none = err e
or_error e (some a) = ok a

pub or_error-eq-ok {ℓ} :
    {A : Type ℓ} → (e : Error) (o : Option A) {a : A} → or_error e o ≡ ok a → o ≡ some a
or_error-eq-ok e none h = cc
or_error-eq-ok e (some b) h = ap some (ok-injective h)

-- `err.Error()` of the errors that a stored receipt may carry; the texts of the others are not read.
pub error_text : Error → Bytes
error_text key_not_found = codes "Key not found"
error_text conflict = codes "Transaction Conflict. Please retry"
error_text (other text) = text
error_text not_found = codes "not found"
error_text _ = codes "invalid request"
