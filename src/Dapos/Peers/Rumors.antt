-- ===== src/Dapos/Peers/Rumors.antt =====
-- What synchronizeGossip of dapos/dapos_handshake.go keeps of the rumors that a delegate holds.
use mathlib.Core.Bool.{false≢true}
use disgo.Prelude.{
  ◌≡◌, refl, sym, ap, ◌∙◌, Bool, true, false, not, ◌&&◌, ◌||◌, Option, none, some, List, [], ◌∷◌,
  ◌++◌, All, ℤ, length, arith,
}
use disgo.Prelude.Text.{Bytes, ◌=ₛ◌, =ₛ_iff, =ₛ_ne, hex_decode, hex_encode}
use mathlib.Core.Option
use disgo.Crypto.{External}
use disgo.Crypto
use disgo.Crypto.Laws.{IsDigest, IsKeyPair}
use disgo.Types.Rumor.{Rumor, verify, new_rumor, sign_rumor}
use disgo.Types.Gossip.{has_rumor}
use disgo.Dapos.Peers.{Delegate, add_if, absorb}

-- No two rumors of one address.
abbrev pub Distinct : List Rumor → Type 0
Distinct [] = Unit
Distinct (r ∷ rs) = (has_rumor rs r.address ≡ false) × Distinct rs

pub has_rumor-append :
    (rs : List Rumor) (r : Rumor) (a : Bytes)
    → has_rumor (rs ++ r ∷ []) a ≡ (has_rumor rs a || (r.address =ₛ a))
unfolding has_rumor
has_rumor-append [] r a = ground arith
has_rumor-append (q ∷ rs) r a = ground (arith, has_rumor-append rs r a)

pub has_rumor_address :
    (rs : List Rumor) (a b : Bytes) → a ≡ b → has_rumor rs a ≡ false → has_rumor rs b ≡ false
has_rumor_address rs a b e h = cc

unlike : (a b : Bytes) → (a =ₛ b) ≡ false → (b =ₛ a) ≡ false
unlike a b h = =ₛ_ne b a (λ e. false≢true (sym h ∙ (=ₛ_iff a b).1 (sym e)))

first_unlike :
    (q : Rumor) (rs : List Rumor) (a : Bytes)
    → has_rumor (q ∷ rs) a ≡ false
    → ((q.address =ₛ a) ≡ false) × (has_rumor rs a ≡ false)
unfolding has_rumor
first_unlike q rs a h = ground arith

Distinct-append :
    (rs : List Rumor) (r : Rumor)
    → Distinct rs
    → has_rumor rs r.address ≡ false
    → Distinct (rs ++ r ∷ [])
unfolding has_rumor
Distinct-append [] r h g = (refl, tt)
Distinct-append (q ∷ rs) r (h, k) g =
    let (other, rest) = first_unlike q rs r.address g in
    (
      has_rumor-append rs r q.address
          ∙ ap (λ (b : Bool). b || (r.address =ₛ q.address)) h
          ∙ unlike q.address r.address other,
      Distinct-append rs r k rest,
    )

All-append :
    (P : Rumor → Type 0) (rs : List Rumor) (r : Rumor) → All P rs → P r → All P (rs ++ r ∷ [])
All-append P [] r h g = (g, tt)
All-append P (q ∷ rs) r (h, k) g = (h, All-append P rs r k g)

append_assoc : (a b c : List Rumor) → (a ++ b) ++ c ≡ a ++ (b ++ c)
append_assoc [] b c = refl
append_assoc (r ∷ a) b c = ap (λ l. r ∷ l) (append_assoc a b c)

pub append_nil : (a : List Rumor) → a ++ [] ≡ a
append_nil [] = refl
append_nil (r ∷ a) = ap (λ l. r ∷ l) (append_nil a)

module _ (x : External) where
  -- Rumors that are worth passing on: each verifies, and no two are of one delegate.
  abbrev pub IsSound : List Rumor → Type 0
  IsSound rs = All (λ r. verify x r ≡ true) rs × Distinct rs

  -- The second list has the first one at its front.
  abbrev pub Extends : List Rumor → List Rumor → Type 0
  Extends rs l = (more : List Rumor) × (l ≡ rs ++ more)

  pub IsSound-append :
      (rs : List Rumor) (r : Rumor)
      → IsSound rs
      → verify x r ≡ true
      → has_rumor rs r.address ≡ false
      → IsSound (rs ++ r ∷ [])
  IsSound-append rs r (h, g) v n =
      (All-append (λ q. verify x q ≡ true) rs r h v, Distinct-append rs r g n)

  pub Extends-trans : (a b c : List Rumor) → Extends a b → Extends b c → Extends a c
  Extends-trans a b c (m, e) (n, f) = (m ++ n, f ∙ ap (λ l. l ++ n) e ∙ append_assoc a m n)

  taken : (has v : Bool) → (not has && v) ≡ true → (has ≡ false) × (v ≡ true)
  taken has v h = ground arith

  add_if-IsSound :
      (ours : List Rumor) (r : Rumor) (test : Bool)
      → (not (has_rumor ours r.address) && verify x r) ≡ test
      → IsSound ours
      → IsSound (add_if test ours r) × Extends ours (add_if test ours r)
  add_if-IsSound ours r true e sound =
      let (new, v) = taken (has_rumor ours r.address) (verify x r) e in
      (IsSound-append ours r sound v new, (r ∷ [], refl))
  add_if-IsSound ours r false e sound = (sound, ([], sym (append_nil ours)))

  -- The loop adds what verifies and is new, and takes nothing away.
  pub absorb-IsSound :
      (ours : List Rumor) (h : Bool) (rs : List Rumor)
      → IsSound ours
      → IsSound (absorb x ours h rs).1 × Extends ours (absorb x ours h rs).1
  unfolding absorb
  absorb-IsSound ours h [] sound = (sound, ([], sym (append_nil ours)))
  absorb-IsSound ours h (r ∷ rs) sound =
      let (next, more) = add_if-IsSound ours r _ refl sound in
      let (kept, rest) =
        absorb-IsSound (add_if (not (has_rumor ours r.address) && verify x r) ours r)
          (has_rumor ours r.address) rs next in
      (kept, Extends-trans ours _ _ more rest)

-- A delegate whose account has a key pair, and the address that goes with it.
pub record IsMember (x : External) (me : Delegate) : Type 0 where
  pub key : Bytes
  pub public_key : Bytes
  pub address_bytes : Bytes
  pub digest : IsDigest x
  pub pair : IsKeyPair x key public_key
  pub key_text : hex_decode me.private_key ≡ some key
  pub address_is : hex_encode (Crypto.to_address x public_key) ≡ me.address
  pub size : length me.address ≡ 40
  pub address_text : hex_decode me.address ≡ some address_bytes

some_inj : {a b : Rumor} → some a ≡ some b → a ≡ b
some_inj e = cc

mapped :
    (r q : Rumor) (o : Option Bytes)
    → Option.map (λ s. record r { signature = hex_encode s }) o ≡ some q
    → q.address ≡ r.address
mapped r q none e = cc
mapped r q (some s) e = sym (ap (λ (p : Rumor). p.address) (some_inj e))

own_address :
    (x : External) (r q : Rumor) (k h : Option Bytes)
    → sign_rumor x r k h ≡ some q
    → q.address ≡ r.address
unfolding sign_rumor
own_address x r q none h e = cc
own_address x r q (some k) none e = cc
own_address x r q (some k) (some h) e = mapped r q (Crypto.new_signature x k h) e

pub new_rumor_address :
    (x : External) (key address hash : Bytes) (now : ℤ) (q : Rumor)
    → new_rumor x key address hash now ≡ some q
    → q.address ≡ address
unfolding new_rumor
new_rumor_address x key address hash now q e = own_address x _ q (hex_decode key) _ e
