-- ===== src/Disgover/Handshake.antt =====
-- That a seed is believed: what NewAuthentication makes for its account is accepted by the nodes
-- that have its address (verifySeedNode of disgover).
use mathlib.Core.Bool.{false≢true}
use disgo.Prelude.{
  ◌≡◌, refl, sym, ap, ◌∙◌, subst, true, false, Bool-cases, Option, none, some, List, [], ◌∷◌, inl,
  inr, ℤ, pos, sub64, ltb_ℤ,
}
use disgo.Prelude.Text.{Bytes, ◌=ₛ◌, =ₛ_iff, =ₛ_refl, hex_decode, hex_encode, hex_decode-encode}
use disgo.Crypto.{External}
use disgo.Crypto
use disgo.Crypto.Laws.{IsKeyPair}
use disgo.Types.Errors.{
  ok, ◌>>=◌, >>=-eq-ok, require, require-eq-ok, or_error, or_error-eq-ok, ok-injective,
  undecodable_hash, undecodable_private_key, signing_failed, address_mismatch,
}
use disgo.Types.Node.{Node}
use disgo.Types.Authentication
use disgo.Types.Authentication.{
  Authentication, new_signature_of, get_derived_address, new_authentication, check_signature,
}
use disgo.Store.{Stores}
use disgo.Store.Records.Authenticity.{verify, cache_authentication, to_authentication_from_cache}
use disgo.Disgover.{
  Service, convert_to_proto_authentication, convert_to_domain_authentication, verify_as,
  verify_seed_node, wrap_error,
}
use disgo.Disgover.Trust.{HasAddress}

module _ (x : External) where
  -- What the key pair has signed.
  record IsMade (a : Authentication) (key address : Bytes) (now : ℤ) : Type 0 where
    hash_bytes : Bytes
    signature_bytes : Bytes
    hash_text : hex_decode a.hash ≡ some hash_bytes
    signed : Crypto.new_signature x key hash_bytes ≡ some signature_bytes
    made : a ≡ record {
      address = [];
      hash = Authentication.new_hash x now;
      time = now;
      signature = hex_encode signature_bytes;
    }
    derived : get_derived_address x a ≡ ok address

  new_signature_of-eq-ok :
      (a : Authentication) (private_key key : Bytes) {t : Bytes}
      → hex_decode private_key ≡ some key
      → new_signature_of x a private_key ≡ ok t
      → (h : Bytes) × (sb : Bytes) × (hex_decode a.hash ≡ some h)
        × (Crypto.new_signature x key h ≡ some sb)
        × (t ≡ hex_encode sb)
  unfolding new_signature_of
  new_signature_of-eq-ok a private_key key text e =
      let (h, e₁, f₁) = >>=-eq-ok (or_error undecodable_hash (hex_decode a.hash)) _ e in
      let (k, e₂, f₂) =
        >>=-eq-ok (or_error undecodable_private_key (hex_decode private_key)) _ f₁ in
      let (sb, e₃, f₃) = >>=-eq-ok (or_error signing_failed (Crypto.new_signature x k h)) _ f₂ in
      let same : some k ≡ some key = sym (or_error-eq-ok undecodable_private_key _ e₂) ∙ text in
      (
        h,
        sb,
        or_error-eq-ok undecodable_hash _ e₁,
        subst (λ (o : Option Bytes). signed_by o h sb) same (or_error-eq-ok signing_failed _ e₃),
        sym (ok-injective f₃),
      )
    where
      signed_by : Option Bytes → Bytes → Bytes → Type 0
      signed_by none h sb = Unit
      signed_by (some k) h sb = Crypto.new_signature x k h ≡ some sb

  new_authentication-IsMade :
      (private_key key address : Bytes) (now : ℤ) (a : Authentication)
      → hex_decode private_key ≡ some key
      → new_authentication x private_key address now ≡ ok a
      → IsMade a key address now
  unfolding new_authentication
  new_authentication-IsMade private_key key address now a text e =
      let unsigned : Authentication = record Authentication.empty {
        hash = Authentication.new_hash x now;
        time = now;
      } in
      let (t, e₁, f₁) = >>=-eq-ok (new_signature_of x unsigned private_key) _ e in
      let (derived, e₂, f₂) =
        >>=-eq-ok (get_derived_address x (record unsigned { signature = t })) _ f₁ in
      let (u, e₃, f₃) = >>=-eq-ok (require (derived =ₛ address) address_mismatch) _ f₂ in
      let is : record unsigned { signature = t } ≡ a = ok-injective f₃ in
      let (h, sb, hash_text, signed, signature) =
        new_signature_of-eq-ok unsigned private_key key text e₁ in
      record {
        hash_bytes = h;
        signature_bytes = sb;
        hash_text = rw (← is) hash_text;
        signed = signed;
        made = sym is ∙ ap (λ (b : Bytes). record unsigned { signature = b }) signature;
        derived =
            rw (← is)
              (e₂ ∙ ap ok ((=ₛ_iff derived address).0 (require-eq-ok _ address_mismatch e₃)));
      }

  signature_ok :
      (key public_key address : Bytes) (now : ℤ) (a : Authentication)
      → IsKeyPair x key public_key
      → IsMade a key address now
      → check_signature x a address ≡ ok tt
  unfolding check_signature get_derived_address
  signature_ok key public_key address now a pair m =
      let recovers = pair.recovers m.hash_bytes m.signature_bytes m.signed in
      let verifies = pair.verifies m.hash_bytes m.signature_bytes m.signed in
      let text : hex_decode a.signature ≡ some m.signature_bytes =
        ap (λ (b : Authentication). hex_decode b.signature) m.made
        ∙ hex_decode-encode m.signature_bytes
            (pair.bytes m.hash_bytes m.signature_bytes m.signed) in
      let derived : hex_encode (Crypto.to_address x public_key) ≡ address =
        ok-injective (rw (m.hash_text, text, recovers) at m.derived) in
      rw (m.hash_text, text, recovers) (rw (derived, =ₛ_refl address, verifies) refl)

module _ (s : Stores) (x : External) (v : Service) (later : ℤ) where
  verify_as-accepted :
      (a : Authentication) (address : Bytes) (seeds : List Node) (c c' : s.Cache)
      → HasAddress address seeds
      → verify s x later a address c ≡ ok c'
      → verify_as s x v later a address seeds c ≡ ok c'
  unfolding verify_as
  verify_as-accepted a address [] c c' there e = absurd there
  verify_as-accepted a address (n ∷ seeds) c c' there e = elim (Bool-cases (n.address =ₛ address)) [
    | inl same ↦ rw same (rw ((=ₛ_iff n.address address).0 same) (ap wrap_error e))
    | inr unlike ↦
        rw unlike
          (verify_as-accepted a address seeds c c' (elsewhere n seeds address unlike there) e)
  ]
    where
      elsewhere :
          (n : Node) (seeds : List Node) (address : Bytes)
          → (n.address =ₛ address) ≡ false
          → HasAddress address (n ∷ seeds)
          → HasAddress address seeds
      elsewhere n seeds address unlike (inl same) =
          absurd (false≢true (sym unlike ∙ (=ₛ_iff n.address address).1 same))
      elsewhere n seeds address unlike (inr h) = h

  accepted :
      (key address : Bytes) (now : ℤ) (a : Authentication) (c : s.Cache)
      → check_signature x a address ≡ ok tt
      → IsMade x a key address now
      → ltb_ℤ (pos 5000) (sub64 later now) ≡ false
      → s.cache_get c (Authentication.key address) ≡ none
      → verify s x later a address c ≡ ok (cache_authentication s a c)
  unfolding verify to_authentication_from_cache
  accepted key address now a c signed m young free =
      let time : a.time ≡ now = ap (λ (b : Authentication). b.time) m.made in
      let fresh : ltb_ℤ (pos 5000) (sub64 later a.time) ≡ false =
        ap (λ (t : ℤ). ltb_ℤ (pos 5000) (sub64 later t)) time ∙ young in
      let right : (a.hash =ₛ Authentication.new_hash x a.time) ≡ true =
        (=ₛ_iff a.hash (Authentication.new_hash x a.time)).1 (
          ap (λ (b : Authentication). b.hash) m.made ∙ ap (Authentication.new_hash x) (sym time)) in
      rw (free, fresh, right, signed)

  -- An authentication that an account makes with the key pair of its address is believed, as a
  -- seed's, by every node that has a seed of that address, up to five seconds later, if the node has
  -- no entry of an authentication under the address.
  pub new_authentication-verify_seed_node :
      (private_key key public_key address : Bytes) (now : ℤ) (a : Authentication) (c : s.Cache)
      → IsKeyPair x key public_key
      → hex_decode private_key ≡ some key
      → new_authentication x private_key address now ≡ ok a
      → HasAddress address v.seeds
      → ltb_ℤ (pos 5000) (sub64 later now) ≡ false
      → s.cache_get c (Authentication.key address) ≡ none
      → verify_seed_node s x v later (some (convert_to_proto_authentication a)) c
        ≡ ok (cache_authentication s a c)
  unfolding verify_seed_node convert_to_proto_authentication convert_to_domain_authentication
  new_authentication-verify_seed_node private_key key public_key address now a c pair text made
        there young free =
      let m = new_authentication-IsMade x private_key key address now a text made in
      let own : record a { address = [] } ≡ a =
        ap (λ (b : Authentication). record b { address = [] }) m.made ∙ sym m.made in
      subst
        (λ (b : Authentication).
          (get_derived_address x b >>= λ derived. verify_as s x v later b derived v.seeds c)
          ≡ ok (cache_authentication s a c))
        (sym own)
        (rw m.derived (
          verify_as-accepted a address v.seeds c (cache_authentication s a c) there (
            accepted key address now a c (signature_ok x key public_key address now a pair m) m
              young free)))
