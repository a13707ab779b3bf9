-- ===== src/Crypto.antt =====
-- commons/crypto/crypto.go: hashes, signatures and addresses, over the hash function and the
-- curve operations of the vendored libraries, which are parameters.
pub mod Laws
pub mod Toy
use disgo.Prelude.{◌-◌, Bool, Option, length, take, drop}
use disgo.Prelude.{ℤ}
use disgo.Prelude.Text.{Bytes}

-- keccak.New256 over the bytes written to it; secp256k1.RecoverPubkey, Sign and VerifySignature
-- of commons/crypto/secp256k1 with the libsecp256k1 that it calls; RFC 3339 text of an instant.
pub record External : Type 0 where
  pub keccak : Bytes → Bytes
  pub recover_pubkey : Bytes → Bytes → Option Bytes
  pub sign : Bytes → Bytes → Option Bytes
  pub verify_signature : Bytes → Bytes → Bytes → Bool
  pub format_time : ℤ → Bytes
  pub parse_time : Bytes → Option ℤ

module _ (x : External) where
  unfoldable pub new_hash : Bytes → Bytes
  new_hash bytes = x.keccak bytes

  unfoldable pub to_public_key : Bytes → Bytes → Option Bytes
  to_public_key hash signature = x.recover_pubkey hash signature

  -- hash[12:] of the hash of publicKey[1:]
  unfoldable pub to_address : Bytes → Bytes
  unfolding new_hash
  to_address public_key = drop 12 (new_hash (drop 1 public_key))

  unfoldable pub new_signature : Bytes → Bytes → Option Bytes
  new_signature private_key hash = x.sign hash private_key

  -- the recovery byte at the end of the signature is cut off
  unfoldable pub verify_signature : Bytes → Bytes → Bytes → Bool
  verify_signature public_key hash signature =
      x.verify_signature public_key hash (take (length signature - 1) signature)
