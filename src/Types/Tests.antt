-- ===== src/Types/Tests.antt =====
-- Concrete runs of the types of commons/types, on which their theorems apply.
use disgo.Prelude.{◌+ℤ◌, arith, ◌≡◌, refl, ◌≢◌, true, [], some, pos, length}
use disgo.Prelude.Text.{Bytes, codes, hex_encode, hex_decode, write_int64}
use disgo.Crypto
use disgo.Crypto.{External}
use disgo.Crypto.Toy.{toy, toy-IsDigest, toy-IsKeyPair, toy_key, toy_public_key, fill}
use disgo.Types.Errors.{ok, ◌>>=◌}
use disgo.Types.Rumor.{Rumor}
use disgo.Types.Rumor
use disgo.Types.Rumor.Signing.{IsAuthentic, verify-IsAuthentic, new_rumor-verify}
use disgo.Types.Account.{Account}
use disgo.Types.Account
use disgo.Types.Account.RoundTrip.{from_json-marshal_account}
use disgo.Types.Json.{AreExact}
use disgo.Types.Transaction.{Transaction}
use disgo.Types.Transaction
use disgo.Types.Transaction.RoundTrip.{from_json-marshal_transaction, decoded}
use disgo.Types.Transaction.Signing.{
  new_hash, sign, verify, check_shape, check_type, check_signature,
}
use disgo.Types.Transaction.Verified.{IsSigned, verify-IsSigned, verify_from_ne_to, verify-sign}

-- The address of the toy key, and another one.
abbrev alice : Bytes
alice = hex_encode (fill 20 64)

abbrev bob : Bytes
bob = hex_encode (fill 20 2)

-- A payment as its constructor makes it, before it is signed, and after that.
abbrev payment : Transaction
payment = record Transaction.empty { from = alice; to = bob; value = pos 7; time = pos 1000 }

abbrev signed_payment : Transaction
signed_payment = record payment {
  hash = hex_encode (fill 32 57);
  signature = hex_encode (fill 65 32);
}

alice_signs : hex_encode (Crypto.to_address toy toy_public_key) ≡ hex_encode (fill 20 64)
unfolding Crypto.to_address Crypto.new_hash fill
alice_signs = refl

payment_verifies : verify toy signed_payment ≡ ok tt
unfolding verify check_shape check_type check_signature new_hash fill Crypto.new_hash
    Crypto.to_address Crypto.to_public_key Crypto.verify_signature hex_encode hex_decode write_int64
payment_verifies = refl

verify-IsSigned_example : IsSigned toy signed_payment
verify-IsSigned_example = verify-IsSigned toy signed_payment payment_verifies

payment_signed : sign toy (hex_encode toy_key) (pos 1000) payment ≡ ok signed_payment
unfolding sign new_hash fill Transaction.Signing.new_signature Crypto.new_hash Crypto.new_signature
    hex_encode hex_decode write_int64 Transaction.check_time ◌+ℤ◌
payment_signed = refl

payment_type : check_type payment ≡ ok tt
unfolding check_type hex_encode fill
payment_type = refl

key_text : hex_decode (hex_encode toy_key) ≡ some toy_key
unfolding hex_encode hex_decode fill
key_text = refl

alice_size : length alice ≡ 40
unfolding hex_encode fill
alice_size = refl

alice_ne_bob : alice ≢ bob
unfolding hex_encode fill
alice_ne_bob = verify_from_ne_to toy signed_payment payment_verifies

alice_is : hex_encode (Crypto.to_address toy toy_public_key) ≡ alice
unfolding Crypto.to_address Crypto.new_hash fill
alice_is = refl

verify-sign_example : verify toy signed_payment ≡ ok tt
verify-sign_example =
    verify-sign toy (hex_encode toy_key) toy_key toy_public_key (pos 1000) payment signed_payment
      toy-IsDigest toy-IsKeyPair key_text alice_is alice_size alice_ne_bob payment_type
      payment_signed

-- A rumor of alice about the payment.
abbrev rumor : Rumor
rumor = record {
  hash = hex_encode (fill 32 60);
  address = alice;
  transaction_hash = hex_encode (fill 32 57);
  time = pos 1200;
  signature = hex_encode (fill 65 32);
}

rumor_made :
    Rumor.new_rumor toy (hex_encode toy_key) alice (hex_encode (fill 32 57)) (pos 1200) ≡ some rumor
unfolding Rumor.new_rumor Rumor.sign_rumor Rumor.hash_of Rumor.rumor_hash fill Crypto.new_hash
    Crypto.new_signature hex_encode hex_decode write_int64
rumor_made = refl

alice_text : hex_decode alice ≡ some (fill 20 64)
unfolding hex_encode hex_decode fill
alice_text = refl

hash_text : hex_decode (hex_encode (fill 32 57)) ≡ some (fill 32 57)
unfolding hex_encode hex_decode fill
hash_text = refl

hash_size : length (hex_encode (fill 32 57)) ≡ 64
unfolding hex_encode fill
hash_size = refl

new_rumor-verify_example : Rumor.verify toy rumor ≡ true
new_rumor-verify_example =
    new_rumor-verify toy alice (hex_encode (fill 32 57)) (fill 20 64) (fill 32 57) (pos 1200)
      (hex_encode toy_key) toy_key toy_public_key rumor toy-IsDigest toy-IsKeyPair key_text alice_is
      alice_size hash_size alice_text hash_text rumor_made

rumor_verifies : Rumor.verify toy rumor ≡ true
unfolding Rumor.verify Rumor.hash_of Rumor.rumor_hash Rumor.signed_by fill Crypto.new_hash
    Crypto.to_address Crypto.to_public_key Crypto.verify_signature hex_encode hex_decode write_int64
rumor_verifies = refl

verify-IsAuthentic_example : IsAuthentic toy rumor
verify-IsAuthentic_example = verify-IsAuthentic toy rumor rumor_verifies

abbrev account : Account
account = record Account.empty {
  address = alice;
  name = codes "Alice";
  balance = some (pos 10000000);
  nonce = 3;
  root = codes "root";
}

from_json-marshal_account_example :
    (Account.marshal toy account >>= Account.from_json toy) ≡ ok (record account { root = [] })
from_json-marshal_account_example =
    from_json-marshal_account toy account (pos 10000000) refl (omega arith, omega arith)
      (record { nonce = omega arith; updated = refl; created = refl })

accepted_time : Transaction.check_time (pos 1500) (pos 1000) ≡ ok (pos 1000)
unfolding Transaction.check_time ◌+ℤ◌
accepted_time = refl

from_json-marshal_transaction_example :
    Transaction.from_json toy (pos 1500) (Transaction.marshal toy signed_payment)
    ≡ ok (decoded signed_payment)
unfolding AreExact
from_json-marshal_transaction_example =
    from_json-marshal_transaction toy (pos 1500) signed_payment
      (record {
        byte = omega arith;
        value = (omega arith, omega arith);
        time = (omega arith, omega arith);
        params = tt;
        result = tt;
      })
      accepted_time refl
