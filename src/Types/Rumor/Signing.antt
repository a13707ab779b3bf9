-- ===== src/Types/Rumor/Signing.antt =====
-- What Verify of commons/types/rumor.go promises, and that NewRumor meets it.
use disgo.Prelude.{
  ◌≡◌, refl, sym, ap, ◌∙◌, subst, Bool, true, Option, none, some, [], ◌++◌, ℤ, length, arith,
}
use disgo.Prelude.Text.{
  Bytes, ◌=ₛ◌, =ₛ_iff, =ₛ_refl, hex_decode, hex_encode, hex_decode-encode, length-hex_encode,
  write_int64,
}
use mathlib.Core.Bool.{◌&&◌, false≢true}
use mathlib.Core.Option
use disgo.Prelude.{Option-cases, inl, inr}
use disgo.Crypto.{External}
use disgo.Crypto
use disgo.Crypto.Laws.{IsDigest, IsKeyPair}
use disgo.Types.Rumor.{Rumor, hash_of, signed_by, verify, new_rumor, rumor_hash, sign_rumor}

some_ne_none {ℓ} : {A : Type ℓ} {a : A} → some a ≡ none → ⊥
some_ne_none e = cc

some_inj {ℓ} : {A : Type ℓ} {a b : A} → some a ≡ some b → a ≡ b
some_inj e = cc

and_left : (a b : Bool) → (a && b) ≡ true → a ≡ true
and_left a b h = ground arith

and_right : (a b : Bool) → (a && b) ≡ true → b ≡ true
and_right a b h = ground arith

module _ (x : External) where
  signed_by_key :
      (a : Bytes) (hb sb : Option Bytes)
      → signed_by x a hb sb ≡ true
      → (h : Bytes) × (s : Bytes) × (key : Bytes) × (hb ≡ some h)
        × (sb ≡ some s)
        × (Crypto.to_public_key x h s ≡ some key)
        × (hex_encode (Crypto.to_address x key) ≡ a)
        × (Crypto.verify_signature x key h s ≡ true)
  unfolding signed_by
  signed_by_key a none sb h = cc
  signed_by_key a (some h) none e = cc
  signed_by_key a (some h) (some s) e = elim (Option-cases (Crypto.to_public_key x h s)) [
    | inl miss ↦ absurd (false≢true (rw (miss, signed_by) at e))
    | inr (key, hit) ↦
        let both : (hex_encode (Crypto.to_address x key) =ₛ a) && Crypto.verify_signature x key h s
            ≡ true =
          rw (hit, signed_by) at e in
        (h, s, key, refl, refl, hit, (=ₛ_iff _ a).0 (and_left _ _ both), and_right _ _ both)
  ]

  pub record IsAuthentic (r : Rumor) : Type 0 where
    pub hash_ok : r.hash ≡ hash_of x r
    pub hash_size : length r.hash ≡ 64
    pub hash_bytes : Bytes
    pub signature_bytes : Bytes
    pub public_key : Bytes
    pub hash_text : hex_decode r.hash ≡ some hash_bytes
    pub signature_text : hex_decode r.signature ≡ some signature_bytes
    pub recovered : Crypto.to_public_key x hash_bytes signature_bytes ≡ some public_key
    pub speaker : hex_encode (Crypto.to_address x public_key) ≡ r.address
    pub verified : Crypto.verify_signature x public_key hash_bytes signature_bytes ≡ true

  verify_parts :
      (r : Rumor)
      → verify x r ≡ true
      → (r.hash ≡ hash_of x r)
        × (length r.hash ≡ 64)
        × (signed_by x r.address (hex_decode r.hash) (hex_decode r.signature) ≡ true)
  unfolding verify
  verify_parts r h = ground (arith, =ₛ_iff r.hash (hash_of x r))

  -- A rumor that verifies carries its own hash, which has 64 digits, and a signature over it from
  -- which the public key of its delegate's address is recovered and under which it verifies.
  pub verify-IsAuthentic : (r : Rumor) → verify x r ≡ true → IsAuthentic r
  verify-IsAuthentic r h =
      let (hash_ok, size, signed) = verify_parts r h in
      let (hb, sb, key, e, e', recovered, speaker, verified) =
        signed_by_key r.address (hex_decode r.hash) (hex_decode r.signature) signed in
      record {
        hash_ok = hash_ok;
        hash_size = size;
        hash_bytes = hb;
        signature_bytes = sb;
        public_key = key;
        hash_text = e;
        signature_text = e';
        recovered = recovered;
        speaker = speaker;
        verified = verified;
      }

  rumor_at : Bytes → Bytes → ℤ → Bytes → Bytes → Rumor
  rumor_at address th now h sb = record {
    hash = h;
    address = address;
    transaction_hash = th;
    time = now;
    signature = hex_encode sb;
  }

module _ (x : External) (address th ab tb : Bytes) (now : ℤ) where
  -- The digest that a rumor of the address about the transaction signs.
  abbrev digest_of : Bytes
  digest_of = Crypto.new_hash x (ab ++ (tb ++ write_int64 now))

  hash_of_decoded :
      (h s : Bytes)
      → hex_decode address ≡ some ab
      → hex_decode th ≡ some tb
      → hash_of x
          (record { hash = h; address = address; transaction_hash = th; time = now; signature = s })
        ≡ hex_encode digest_of
  unfolding hash_of
  hash_of_decoded h s da dt = rw (da, dt, rumor_hash)

  digest_text : IsDigest x → hex_decode (hex_encode digest_of) ≡ some digest_of
  unfolding Crypto.new_hash
  digest_text digest = hex_decode-encode _ (digest.bytes _)

  digest_size : IsDigest x → length (hex_encode digest_of) ≡ 64
  unfolding Crypto.new_hash
  digest_size digest = rw length-hex_encode (omega (arith, digest.size _))

  new_rumor_steps :
      (private_key key : Bytes)
      → IsDigest x
      → hex_decode private_key ≡ some key
      → hex_decode address ≡ some ab
      → hex_decode th ≡ some tb
      → new_rumor x private_key address th now
        ≡ Option.map
            (rumor_at x address th now (hex_encode digest_of))
            (Crypto.new_signature x key digest_of)
  unfolding new_rumor sign_rumor rumor_at
  new_rumor_steps private_key key digest k da dt =
      rw (hash_of_decoded [] [] da dt, k, digest_text digest, sign_rumor)
        (simp (hash_of_decoded [] [] da dt))

  rumor_at-verify :
      (key public_key sb : Bytes)
      → IsDigest x
      → IsKeyPair x key public_key
      → hex_encode (Crypto.to_address x public_key) ≡ address
      → length address ≡ 40
      → length th ≡ 64
      → hex_decode address ≡ some ab
      → hex_decode th ≡ some tb
      → Crypto.new_signature x key digest_of ≡ some sb
      → verify x (rumor_at x address th now (hex_encode digest_of) sb) ≡ true
  unfolding verify rumor_at signed_by
  rumor_at-verify key public_key sb digest pair sender la lt da dt signed =
      let size' : length (hex_encode sb) ≡ 130 =
        omega (arith, length-hex_encode sb, pair.size digest_of sb signed) in
      rw
        (
          digest_size digest,
          la,
          lt,
          size',
          hash_of_decoded (hex_encode digest_of) (hex_encode sb) da dt,
          =ₛ_refl (hex_encode digest_of),
          digest_text digest,
          hex_decode-encode sb (pair.bytes _ _ signed),
          signed_by,
        )
        (rw (pair.recovers _ _ signed) (rw (sender, =ₛ_refl address, pair.verifies _ _ signed)))

  -- A rumor that a delegate makes with the key of its own address is verified by everybody.
  pub new_rumor-verify :
      (private_key key public_key : Bytes) (r : Rumor)
      → IsDigest x
      → IsKeyPair x key public_key
      → hex_decode private_key ≡ some key
      → hex_encode (Crypto.to_address x public_key) ≡ address
      → length address ≡ 40
      → length th ≡ 64
      → hex_decode address ≡ some ab
      → hex_decode th ≡ some tb
      → new_rumor x private_key address th now ≡ some r
      → verify x r ≡ true
  new_rumor-verify private_key key public_key r digest pair k sender la lt da dt made =
      elim (Option-cases (Crypto.new_signature x key digest_of)) [
        | inl miss ↦ absurd (
            some_ne_none
              (sym made ∙ new_rumor_steps private_key key digest k da dt ∙ ap (Option.map _) miss))
        | inr (sb, signed) ↦
            let e : some (rumor_at x address th now (hex_encode digest_of) sb) ≡ some r =
              sym (new_rumor_steps private_key key digest k da dt ∙ ap (Option.map _) signed)
              ∙ made in
            subst (λ (q : Rumor). verify x q ≡ true) (some_inj e)
              (rumor_at-verify key public_key sb digest pair sender la lt da dt signed)
      ]
