-- ===== src/Store/Records/Authenticity.antt =====
-- Verify of commons/types/authentication.go and the cache that it looks for duplicates in.
use disgo.Prelude.{
  ◌≡◌, ◌≢◌, refl, sym, ap, ◌∙◌, Bool, true, false, not, Option, none, some, ℤ, pos, ltb_ℤ, length,
  arith,
}
use disgo.Prelude.{sub64, subst, ◌-ℤ◌, ◌≤ℤ◌}
use disgo.Types.Rumor.TimeDelta.{IsInstant, sub64_instants}
use disgo.Prelude.Text.{Bytes, ◌=ₛ◌, =ₛ_iff, codes, append_cancel, length-hex_encode}
use disgo.Crypto.{External}
use disgo.Crypto
use disgo.Crypto.Laws.{IsDigest}
use disgo.Types.Errors.{
  Result, ok, err, panic, ◌>>◌, >>=-eq-ok, require, require-eq-ok, not_found, invalid_hash,
  duplicate_authentication, authentication_timed_out, ok-injective,
}
use disgo.Types.Authentication
use disgo.Types.Authentication.{
  Authentication, new_hash, check_signature, IsSigned, check_signature-IsSigned,
}
use disgo.Store.Defs.{Cached, Stores, IsCache}

abbrev as_authentication : Option Cached → Result Authentication
as_authentication none = err not_found
as_authentication (some (Cached.authentication a)) = ok a
as_authentication (some _) = panic

-- `if err != ErrNotFound { return errors.New("duplicate authentication") }`
abbrev duplicate : Result Authentication → Result (Unit {0})
duplicate panic = panic
duplicate (ok a) = err duplicate_authentication
duplicate (err e) = ok tt

module _ (s : Stores) where
  -- Authentication.Cache
  unfoldable pub cache_authentication : Authentication → s.Cache → s.Cache
  cache_authentication a c = s.cache_set c (Authentication.key a.hash) (Cached.authentication a)

  unfoldable pub to_authentication_from_cache : s.Cache → Bytes → Result Authentication
  to_authentication_from_cache c hash = as_authentication (s.cache_get c (Authentication.key hash))

  -- Verify at the time `now`; where it returns an error, the cache is left as it is.
  unfoldable pub verify : External → ℤ → Authentication → Bytes → s.Cache → Result s.Cache
  verify x now a address c =
      duplicate (to_authentication_from_cache c address)
      >> require (not (ltb_ℤ (pos 5000) (sub64 now a.time))) authentication_timed_out
      >> require (a.hash =ₛ new_hash x a.time) invalid_hash
      >> check_signature x a address
      >> ok (cache_authentication a c)

not_there : (o : Option Cached) {u : Unit {0}} → duplicate (as_authentication o) ≡ ok u → o ≡ none
not_there none e = refl
not_there (some (Cached.authentication a)) e = cc
not_there (some (Cached.receipt r)) e = cc
not_there (some (Cached.gossip r)) e = cc
not_there (some (Cached.transaction r)) e = cc
not_there (some (Cached.account r)) e = cc
not_there (some (Cached.addresses r)) e = cc
not_there (some (Cached.node r)) e = cc
not_there (some (Cached.page r)) e = cc
not_there (some (Cached.text r)) e = cc

module _ (s : Stores) (x : External) where
  not_over : (d : ℤ) → ltb_ℤ (pos 5000) d ≡ false → d ≤ℤ pos 5000
  not_over d h = ground arith

  -- What Verify has tested when it accepts; `fresh` is the difference as an int64, which wraps.
  pub record IsAccepted (now : ℤ) (a : Authentication) (address : Bytes) (c c' : s.Cache)
      : Type 0 where
    pub unknown : s.cache_get c (Authentication.key address) ≡ none
    pub fresh : ltb_ℤ (pos 5000) (sub64 now a.time) ≡ false
    pub hash_ok : a.hash ≡ new_hash x a.time
    pub checked : check_signature x a address ≡ ok tt
    pub signed : IsSigned x a address
    pub cached : c' ≡ cache_authentication s a c

  not_stale : (b : Bool) → not b ≡ true → b ≡ false
  not_stale b h = ground arith

  pub verify-IsAccepted :
      (now : ℤ) (a : Authentication) (address : Bytes) (c c' : s.Cache)
      → verify s x now a address c ≡ ok c'
      → IsAccepted now a address c c'
  unfolding verify to_authentication_from_cache
  verify-IsAccepted now a address c c' h =
      let (u, before, end) = >>=-eq-ok _ _ h in
      let (u₃, before₃, signed) = >>=-eq-ok _ _ before in
      let (u₂, before₂, hash) = >>=-eq-ok _ _ before₃ in
      let (u₁, before₁, time) = >>=-eq-ok _ _ before₂ in
      record {
        unknown = not_there _ before₁;
        fresh = not_stale _ (require-eq-ok _ authentication_timed_out time);
        hash_ok = (=ₛ_iff a.hash (new_hash x a.time)).0 (require-eq-ok _ invalid_hash hash);
        checked = signed;
        signed = check_signature-IsSigned x a address signed;
        cached = sym (ok-injective end);
      }

  -- Of times between 1970 and the year 146 million, an authentication is accepted only if it is not
  -- more than five seconds old, its hash is that of its time, the key recovered from its signature is
  -- the address's and verifies it, and the cache has no entry under the address; then it is cached
  -- under its hash.
  pub verify-IsRecent :
      (now : ℤ) (a : Authentication) (address : Bytes) (c c' : s.Cache)
      → IsInstant now
      → IsInstant a.time
      → verify s x now a address c ≡ ok c'
      → ((now -ℤ a.time) ≤ℤ pos 5000) × IsAccepted now a address c c'
  verify-IsRecent now a address c c' now_is time_is h =
      let done = verify-IsAccepted now a address c c' h in
      (
        subst (λ (d : ℤ). d ≤ℤ pos 5000) (sub64_instants now a.time now_is time_is)
            (not_over (sub64 now a.time) done.fresh),
        done,
      )

  again :
      (now : ℤ) (a : Authentication) (address : Bytes) (c c' d : s.Cache)
      → verify s x now a address c ≡ ok c'
      → (later : ℤ) → ltb_ℤ (pos 5000) (sub64 later a.time) ≡ false
      → s.cache_get d (Authentication.key address) ≡ none
      → verify s x later a address d ≡ ok (cache_authentication s a d)
  unfolding verify to_authentication_from_cache
  again now a address c c' d h later young free =
      let done = verify-IsAccepted now a address c c' h in
      let right : (a.hash =ₛ new_hash x a.time) ≡ true =
        (=ₛ_iff a.hash (new_hash x a.time)).1 done.hash_ok in
      let passed = done.checked in rw (free, young, right, passed)

  other_key :
      (a : Authentication) (address : Bytes)
      → length address ≡ 40
      → length a.hash ≡ 64
      → Authentication.key a.hash ≢ Authentication.key address
  unfolding Authentication.key
  other_key a address size size' e =
      let same : a.hash ≡ address = append_cancel (codes "table-authentication-") _ _ e in
      absurd (omega (arith, size, size', ap length same))

  hash_size : IsDigest x → (time : ℤ) → length (new_hash x time) ≡ 64
  unfolding new_hash Crypto.new_hash
  hash_size digest time = rw length-hex_encode (omega (arith, digest.size _))

  -- An authentication that was accepted is accepted again from the cache that this left, as long as
  -- it is not more than five seconds old: it is cached under its hash, and looked for under the
  -- address, where an address of 40 digits finds nothing.
  pub verify-verify :
      (now later : ℤ) (a : Authentication) (address : Bytes) (c c' : s.Cache)
      → IsDigest x
      → IsCache s
      → length address ≡ 40
      → verify s x now a address c ≡ ok c'
      → ltb_ℤ (pos 5000) (sub64 later a.time) ≡ false
      → verify s x later a address c' ≡ ok (cache_authentication s a c')
  unfolding cache_authentication
  verify-verify now later a address c c' digest laws size accepted young =
      let done = verify-IsAccepted now a address c c' accepted in
      let long : length a.hash ≡ 64 = ap length done.hash_ok ∙ hash_size digest a.time in
      again now a address c c' c' accepted later young (
        ap (λ (d : s.Cache). s.cache_get d (Authentication.key address)) done.cached
        ∙ laws.get-set_ne c _ _ (Cached.authentication a) (other_key a address size long)
        ∙ done.unknown)
