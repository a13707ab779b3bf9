-- ===== src/Crypto/Toy.antt =====
-- A hash function, a curve and a clock on which the laws of Crypto hold, for concrete runs: digests
-- have the length of what is hashed in every byte, and one key pair signs everything alike.
use disgo.Prelude.{ℕ, zero, suc, ◌≡◌, refl, ◌%◌, ◌<◌, some, [], ◌∷◌, length, pos, ◌==◌, arith}
use disgo.Prelude.Text.{Bytes, IsBytes}
use disgo.Crypto.{External}
use disgo.Crypto
use disgo.Crypto.Laws.{IsDigest, IsKeyPair}

-- `n` bytes `b`
unfoldable pub fill : ℕ → ℕ → Bytes
fill zero b = []
fill (suc n) b = b ∷ fill n b

abbrev pub toy : External
toy = record {
  keccak = λ b. fill 32 (length b % 256);
  recover_pubkey = λ h s. some (fill 65 4);
  sign = λ h key. some (fill 65 (length key % 256));
  verify_signature = λ key h s. length s == 64;
  format_time = λ t. [];
  parse_time = λ s. some (pos 0);
}

length-fill : (n b : ℕ) → length (fill n b) ≡ n
unfolding fill
length-fill zero b = refl
length-fill (suc n) b = omega (arith, length-fill n b)

fill-IsBytes : (n b : ℕ) → b < 256 → IsBytes (fill n b)
unfolding fill
fill-IsBytes zero b h = tt
fill-IsBytes (suc n) b h = (h, fill-IsBytes n b h)

pub toy-IsDigest : IsDigest toy
toy-IsDigest = record {
  size = λ b. length-fill 32 (length b % 256);
  bytes = λ b. fill-IsBytes 32 (length b % 256) (omega arith);
}

-- A private key of 32 bytes.
abbrev pub toy_key : Bytes
toy_key = fill 32 9

abbrev pub toy_public_key : Bytes
toy_public_key = fill 65 4

signed : (s : Bytes) → some (fill 65 32) ≡ some s → fill 65 32 ≡ s
signed s e = cc

pub toy-IsKeyPair : IsKeyPair toy toy_key toy_public_key
unfolding Crypto.new_signature Crypto.to_public_key Crypto.verify_signature fill
toy-IsKeyPair = record {
  size = λ h s e. rw (← signed s e) refl;
  bytes = λ h s e. rw (← signed s e) (fill-IsBytes 65 32 (omega arith));
  recovers = λ h s e. refl;
  verifies = λ h s e. rw (← signed s e) refl;
}
