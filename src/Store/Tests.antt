-- ===== src/Store/Tests.antt =====
-- An authentication at alice's address, verified twice.
use disgo.Prelude.{arith, ◌≤ℤ◌, sub64, wrap64, ◌-ℤ◌, ◌≡◌, refl, false, [], pos, length, ltb_ℤ}
use disgo.Prelude.Text.{Bytes, hex_encode, hex_decode, write_int64}
use disgo.Crypto
use disgo.Crypto.Toy.{toy, toy-IsDigest, fill}
use disgo.Types.Errors.{ok}
use disgo.Types.Authentication
use disgo.Types.Authentication.{Authentication}
use disgo.Store.Assoc.{assoc_stores, assoc_IsCache, lookup}
use disgo.Store.Records.Authenticity.{
  verify, cache_authentication, to_authentication_from_cache, IsAccepted, verify-IsRecent,
  verify-verify,
}

abbrev alice : Bytes
alice = hex_encode (fill 20 64)

abbrev authentication : Authentication
authentication = record {
  address = [];
  hash = hex_encode (fill 32 8);
  time = pos 1000;
  signature = hex_encode (fill 65 32);
}

accepted :
    verify assoc_stores toy (pos 2000) authentication alice []
    ≡ ok (cache_authentication assoc_stores authentication [])
unfolding verify to_authentication_from_cache lookup Authentication.new_hash Crypto.new_hash
    Authentication.check_signature Crypto.to_address Crypto.to_public_key Crypto.verify_signature
    hex_encode hex_decode write_int64 fill sub64 wrap64 ◌-ℤ◌ cache_authentication
accepted = refl

alice_size : length alice ≡ 40
unfolding hex_encode fill
alice_size = refl

still_young : ltb_ℤ (pos 5000) (sub64 (pos 3000) authentication.time) ≡ false
unfolding sub64 wrap64 ◌-ℤ◌
still_young = refl

verify-IsRecent_example :
    ((pos 2000 -ℤ authentication.time) ≤ℤ pos 5000)
    × IsAccepted assoc_stores toy
        (pos 2000)
        authentication
        alice
        []
        (cache_authentication assoc_stores authentication [])
verify-IsRecent_example =
    verify-IsRecent assoc_stores toy (pos 2000) authentication alice []
      (cache_authentication assoc_stores authentication []) (omega arith, omega arith)
      (omega arith, omega arith) accepted

verify-verify_example :
    verify assoc_stores toy
      (pos 3000)
      authentication
      alice
      (cache_authentication assoc_stores authentication [])
    ≡ ok (
        cache_authentication assoc_stores authentication
          (cache_authentication assoc_stores authentication []))
verify-verify_example =
    verify-verify assoc_stores toy (pos 2000) (pos 3000) authentication alice []
      (cache_authentication assoc_stores authentication []) toy-IsDigest assoc_IsCache alice_size
      accepted still_young
