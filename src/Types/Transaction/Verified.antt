-- ===== src/Types/Transaction/Verified.antt =====
-- What Verify of commons/types/transaction.go promises, and that the constructors meet it.
use disgo.Prelude.{
  ◌≡◌, refl, ap, sym, ◌∙◌, ◌≢◌, true, false, Option, none, some, ℤ, pos, ◌<ℤ◌, length, arith,
}
use disgo.Prelude.Text.{
  Bytes, ◌=ₛ◌, =ₛ_iff, =ₛ_refl, =ₛ_ne, hex_decode, hex_encode, hex_decode-encode, length-hex_encode,
}
use disgo.Crypto.{External}
use disgo.Crypto
use disgo.Crypto.Laws.{IsDigest, IsKeyPair}
use disgo.Types.Constants.{type_transfer_tokens}
use disgo.Types.Errors.{
  Error, undecodable_from, undecodable_to, undecodable_code, undecodable_private_key,
  invalid_signature, err, panic, Result, ok, invalid_hash, undecodable_hash, undecodable_signature,
  no_public_key, address_mismatch, require, ok-injective, require-eq-ok, >>=-eq-ok,
}
use disgo.Types.Transaction.{Transaction, check_time}
use disgo.Types.Transaction.Signing.{
  hash_or_fail, new_hash, new_signature, check_shape, check_type, check_signature, verify, or_fail,
  sign,
}

or_fail-eq-ok : (o : Option Bytes) (e : Error) {b : Bytes} → or_fail o e ≡ ok b → o ≡ some b
or_fail-eq-ok none e h = cc
or_fail-eq-ok (some b) e h = cc

hash_or_fail-eq-ok : (r : Result Bytes) {b : Bytes} → hash_or_fail r ≡ ok b → r ≡ ok b
hash_or_fail-eq-ok (ok b) h = h
hash_or_fail-eq-ok (err e) h = cc
hash_or_fail-eq-ok panic h = cc

module _ (x : External) (t : Transaction) where
  -- The signature's part: a key recovered from hash and signature, whose address is the sender.
  pub record IsSigned : Type 0 where
    pub hash_ok : new_hash x t ≡ ok t.hash
    pub hash_bytes : Bytes
    pub signature_bytes : Bytes
    pub public_key : Bytes
    pub hash_text : hex_decode t.hash ≡ some hash_bytes
    pub signature_text : hex_decode t.signature ≡ some signature_bytes
    pub recovered : Crypto.to_public_key x hash_bytes signature_bytes ≡ some public_key
    pub sender : hex_encode (Crypto.to_address x public_key) ≡ t.from
    pub verified : Crypto.verify_signature x public_key hash_bytes signature_bytes ≡ true

  check_signature-IsSigned : check_signature x t ≡ ok tt → IsSigned
  unfolding check_signature
  check_signature-IsSigned h =
      let (hash, hash_done, h₁) = >>=-eq-ok (hash_or_fail (new_hash x t)) _ h in
      let (_, same, h₂) = >>=-eq-ok (require (t.hash =ₛ hash) invalid_hash) _ h₁ in
      let (hb, hash_text, h₃) = >>=-eq-ok (or_fail (hex_decode t.hash) undecodable_hash) _ h₂ in
      let (sb, signature_text, h₄) =
        >>=-eq-ok (or_fail (hex_decode t.signature) undecodable_signature) _ h₃ in
      let (key, recovered, h₅) =
        >>=-eq-ok (or_fail (Crypto.to_public_key x hb sb) no_public_key) _ h₄ in
      let (_, sender, h₆) =
        >>=-eq-ok (require (hex_encode (Crypto.to_address x key) =ₛ t.from) address_mismatch) _
          h₅ in
      let e : t.hash ≡ hash = (=ₛ_iff t.hash hash).0 (require-eq-ok _ _ same) in
      record {
        hash_ok = hash_or_fail-eq-ok (new_hash x t) hash_done ∙ ap ok (sym e);
        hash_bytes = hb;
        signature_bytes = sb;
        public_key = key;
        hash_text = or_fail-eq-ok _ _ hash_text;
        signature_text = or_fail-eq-ok _ _ signature_text;
        recovered = or_fail-eq-ok _ _ recovered;
        sender = (=ₛ_iff _ t.from).0 (require-eq-ok _ _ sender);
        verified = require-eq-ok _ _ h₆;
      }

  pub verify_parts :
      verify x t ≡ ok tt
      → (check_shape t ≡ ok tt) × (check_type t ≡ ok tt) × (check_signature x t ≡ ok tt)
  unfolding verify
  verify_parts h =
      let (_, shape, h₁) = >>=-eq-ok (check_shape t) _ h in
      let (_, type, h₂) = >>=-eq-ok (check_type t) _ h₁ in (shape, type, h₂)

  -- A transaction that verifies carries its own hash, and a signature over that hash from which
  -- the public key of the sender's address is recovered and under which it verifies.
  pub verify-IsSigned : verify x t ≡ ok tt → IsSigned
  verify-IsSigned h = check_signature-IsSigned (verify_parts h).2

  check_shape_ne : check_shape t ≡ ok tt → (t.from =ₛ t.to) ≡ false
  unfolding check_shape
  check_shape_ne h = ground arith

  -- Nobody pays to themselves: sender and receiver of a verified transaction differ.
  pub verify_from_ne_to : verify x t ≡ ok tt → t.from ≢ t.to
  verify_from_ne_to h e = cc (check_shape_ne (verify_parts h).0, (=ₛ_iff t.from t.to).1 e)

  check_type_value : check_type t ≡ ok tt → t.type ≡ type_transfer_tokens → pos 0 <ℤ t.value
  unfolding check_type
  check_type_value h e = ground arith

  -- A verified transfer moves a positive amount.
  pub verify_value_positive : verify x t ≡ ok tt → t.type ≡ type_transfer_tokens → pos 0 <ℤ t.value
  verify_value_positive h e = check_type_value (verify_parts h).1 e

-- What `sign` does when it succeeds.
module _ (x : External) (private_key key : Bytes)
    (decodes : hex_decode private_key ≡ some key) where
  pub record Signs (now : ℤ) (t u : Transaction) : Type 0 where
    pub hash : Bytes
    pub hash_bytes : Bytes
    pub signature_bytes : Bytes
    pub hashed : new_hash x t ≡ ok hash
    pub hash_text : hex_decode hash ≡ some hash_bytes
    pub signed : Crypto.new_signature x key hash_bytes ≡ some signature_bytes
    pub result : u ≡ record t { hash = hash; signature = hex_encode signature_bytes }

  same_key :
      (kb : Bytes) → or_fail (hex_decode private_key) undecodable_private_key ≡ ok kb → kb ≡ key
  same_key kb h = cc (or_fail-eq-ok _ _ h, decodes)

  sign-Signs : (now : ℤ) (t u : Transaction) → sign x private_key now t ≡ ok u → Signs now t u
  unfolding sign new_signature
  sign-Signs now t u h =
      let (_, _, h₁) = >>=-eq-ok (check_time now t.time) _ h in
      let (hash, hashed, h₂) = >>=-eq-ok (new_hash x t) _ h₁ in
      let (signature, made, h₃) =
        >>=-eq-ok (new_signature x (record t { hash = hash }) private_key) _ h₂ in
      let (hb, hash_text, h₄) = >>=-eq-ok (or_fail (hex_decode hash) undecodable_hash) _ made in
      let (kb, key_text, h₅) =
        >>=-eq-ok (or_fail (hex_decode private_key) undecodable_private_key) _ h₄ in
      let (sb, signed, h₆) =
        >>=-eq-ok (or_fail (Crypto.new_signature x kb hb) invalid_signature) _ h₅ in
      record {
        hash = hash;
        hash_bytes = hb;
        signature_bytes = sb;
        hashed = hashed;
        hash_text = or_fail-eq-ok _ _ hash_text;
        signed =
            ap (λ (k : Bytes). Crypto.new_signature x k hb) (sym (same_key kb key_text))
            ∙ or_fail-eq-ok _ _ signed;
        result =
            sym (ok-injective h₃)
            ∙ ap (λ (s : Bytes). record t { hash = hash; signature = s }) (sym (ok-injective h₆));
      }

module _ (x : External) (digest : IsDigest x) where
  -- The hash is the hex text of 32 bytes.
  hash_shape : (t : Transaction) (h : Bytes) → new_hash x t ≡ ok h → (length h ≡ 64)
  unfolding new_hash Crypto.new_hash
  hash_shape t h e =
      let (_, _, h₁) = >>=-eq-ok (or_fail (hex_decode t.from) undecodable_from) _ e in
      let (_, _, h₂) = >>=-eq-ok (or_fail (hex_decode t.to) undecodable_to) _ h₁ in
      let (_, _, h₃) = >>=-eq-ok (or_fail (hex_decode t.code) undecodable_code) _ h₂ in
      rw (← ok-injective h₃) (rw length-hex_encode (omega (arith, digest.size _)))

signed_shape :
    (t : Transaction) (h s : Bytes)
    → length h ≡ 64
    → length t.from ≡ 40
    → length s ≡ 130
    → t.from ≢ t.to
    → check_shape (record t { hash = h; signature = s }) ≡ ok tt
unfolding check_shape
signed_shape t h s a b c d = rw (a, b, c, =ₛ_ne t.from t.to d)

module _ (x : External) (private_key key public_key : Bytes) where
  signed_signature :
      (t : Transaction) (h hb sb : Bytes)
      → IsKeyPair x key public_key
      → new_hash x t ≡ ok h
      → hex_decode h ≡ some hb
      → Crypto.new_signature x key hb ≡ some sb
      → hex_encode (Crypto.to_address x public_key) ≡ t.from
      → check_signature x (record t { hash = h; signature = hex_encode sb }) ≡ ok tt
  unfolding check_signature
  signed_signature t h hb sb pair hashed text signed sender =
      let same : new_hash x (record t { hash = h; signature = hex_encode sb }) ≡ new_hash x t =
        unfold new_hash in refl in
      rw (
        same,
        hashed,
        =ₛ_refl h,
        text,
        hex_decode-encode sb (pair.bytes hb sb signed),
        pair.recovers hb sb signed,
        sender,
        =ₛ_refl t.from,
        pair.verifies hb sb signed,
      )

  signature_size :
      IsKeyPair x key public_key
      → (h s : Bytes) → Crypto.new_signature x key h ≡ some s
      → length (hex_encode s) ≡ 130
  signature_size pair h s e = omega (arith, length-hex_encode s, pair.size h s e)

  -- Whatever the key pair of the sender's address signs is verified: a transaction of the right
  -- shape for its type, with sender and receiver apart, is accepted by Verify once `sign`, the
  -- common end of the three constructors, has returned it.
  pub verify-sign :
      (now : ℤ) (t u : Transaction)
      → IsDigest x
      → IsKeyPair x key public_key
      → hex_decode private_key ≡ some key
      → hex_encode (Crypto.to_address x public_key) ≡ t.from
      → length t.from ≡ 40
      → t.from ≢ t.to
      → check_type t ≡ ok tt
      → sign x private_key now t ≡ ok u
      → verify x u ≡ ok tt
  unfolding verify
  verify-sign now t u digest pair decodes sender size ne type made =
      let s : Signs x private_key key decodes now t u =
        sign-Signs x private_key key decodes now t u made in
      let type' : check_type (record t { hash = s.hash; signature = hex_encode s.signature_bytes })
          ≡ ok tt =
        unfold check_type in type in
      rw
        (
          s.result,
          signed_shape t s.hash (hex_encode s.signature_bytes)
              (hash_shape x digest t s.hash s.hashed) size
              (signature_size pair s.hash_bytes s.signature_bytes s.signed) ne,
          type',
        )
        (signed_signature t s.hash s.hash_bytes s.signature_bytes pair s.hashed s.hash_text s.signed
          sender)
