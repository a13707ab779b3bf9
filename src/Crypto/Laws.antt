-- ===== src/Crypto/Laws.antt =====
-- What the program relies on of its hash function and its curve, for one key pair.
use disgo.Prelude.{◌≡◌, true, some, length}
use disgo.Prelude.Text.{Bytes, IsBytes}
use disgo.Crypto.{External, to_address}
use disgo.Crypto

-- A Keccak-256 digest has 32 bytes.
pub record IsDigest (x : External) : Type 0 where
  pub size : (b : Bytes) → length (x.keccak b) ≡ 32
  pub bytes : (b : Bytes) → IsBytes (x.keccak b)

-- Signing a digest gives 65 bytes, from which the signer's public key is recovered, and which
-- verify under it.
pub record IsKeyPair (x : External) (private_key public_key : Bytes) : Type 0 where
  pub size : (h s : Bytes) → Crypto.new_signature x private_key h ≡ some s → length s ≡ 65
  pub bytes : (h s : Bytes) → Crypto.new_signature x private_key h ≡ some s → IsBytes s
  pub recovers :
      (h s : Bytes)
      → Crypto.new_signature x private_key h ≡ some s
      → Crypto.to_public_key x h s ≡ some public_key
  pub verifies :
      (h s : Bytes)
      → Crypto.new_signature x private_key h ≡ some s
      → Crypto.verify_signature x public_key h s ≡ true
