-- ===== src/Disgover/Trust.antt =====
-- Whom a node believes: verifySeedNode, UpdateGrpc and UpdateSoftwareGrpc of disgover.
use mathlib.Core.Bool.{false≢true}
use disgo.Prelude.{
  ◌≡◌, ◌≢◌, refl, sym, ap, ◌∙◌, subst, Bool, true, false, Bool-cases, Option, none, some, List, [],
  ◌∷◌, inl, inr, Any, ℤ, if◌then◌else◌,
}
use disgo.Prelude.Text.{Bytes, codes, ◌=ₛ◌, =ₛ_iff, append_cancel, apart, hex_decode, hex_encode}
use disgo.Crypto.{External, to_public_key, to_address}
use disgo.Crypto
use disgo.Types.Errors.{
  Error, Result, ok, err, panic, >>=-eq-ok, require, require-eq-ok, or_error, or_error-eq-ok,
  ok-injective, invalid_hash, undecodable_signature, no_public_key,
}
use disgo.Types.Node
use disgo.Types.Node.{Node}
use disgo.Types.Authentication
use disgo.Types.Authentication.{Authentication}
use disgo.Store.{Cached, Stores, IsCache}
use disgo.Store.Records.Authenticity.{verify, IsAccepted, verify-IsAccepted, cache_authentication}
use disgo.Store.Records.Nodes.{cache_node}
use disgo.Disgover.{
  ProtoAuthentication, ProtoNode, Update, SoftwareUpdate, Service, Install, deref,
  convert_to_domain_node, convert_to_domain_authentication, wrap_error, verify_as, verify_seed_node,
  cache_delegates, update_grpc, is_seed, verify_software_update, not_authorized, written, save,
  installed, after, update_software_grpc,
}

abbrev pub HasAddress : Bytes → List Node → Type 0
HasAddress address = Any (λ n. n.address ≡ address)

wrap_error-eq-ok : {A : Type 0} → (r : Result A) {a : A} → wrap_error r ≡ ok a → r ≡ ok a
wrap_error-eq-ok (ok a) e = e
wrap_error-eq-ok (err r) e = cc
wrap_error-eq-ok panic e = cc

-- convertToDomainAuthentication of one that is there
abbrev pub domain : ProtoAuthentication → Authentication
domain p = record Authentication.empty { hash = p.hash; time = p.time; signature = p.signature }

module _ (s : Stores) (x : External) (v : Service) (now : ℤ) where
  verify_as-eq-ok :
      (a : Authentication) (derived : Bytes) (seeds : List Node) (c c' : s.Cache)
      → verify_as s x v now a derived seeds c ≡ ok c'
      → HasAddress derived seeds × (verify s x now a derived c ≡ ok c')
  unfolding verify_as
  verify_as-eq-ok a derived [] c c' e = cc
  verify_as-eq-ok a derived (seed ∷ seeds) c c' e = elim (Bool-cases (seed.address =ₛ derived)) [
    | inl same ↦
        let address = (=ₛ_iff seed.address derived).0 same in
        (
          inl address,
          subst (λ d. verify s x now a d c ≡ ok c') address
              (wrap_error-eq-ok (verify s x now a seed.address c) (rw same at e)),
        )
    | inr other ↦
        let (there, accepted) = verify_as-eq-ok a derived seeds c c' (rw other at e) in
        (inr there, accepted)
  ]

  -- The authentication of a message from a seed, and the cache after it was accepted.
  pub record IsFromSeed (o : Option ProtoAuthentication) (c c' : s.Cache) : Type 0 where
    pub sent : ProtoAuthentication
    pub address : Bytes
    pub is_sent : o ≡ some sent
    pub seed : HasAddress address v.seeds
    pub accepted : IsAccepted s x now (domain sent) address c c'

  pub verify_seed_node-IsFromSeed :
      (o : Option ProtoAuthentication) (c c' : s.Cache)
      → verify_seed_node s x v now o c ≡ ok c'
      → IsFromSeed o c c'
  unfolding verify_seed_node convert_to_domain_authentication
  verify_seed_node-IsFromSeed none c c' e = cc
  verify_seed_node-IsFromSeed (some p) c c' e =
      let (derived, address, rest) =
        >>=-eq-ok (Authentication.get_derived_address x (domain p)) _ e in
      let (seed, accepted) = verify_as-eq-ok (domain p) derived v.seeds c c' rest in
      record {
        sent = p;
        address = derived;
        is_sent = refl;
        seed = seed;
        accepted = verify-IsAccepted s x now (domain p) derived c c' accepted;
      }

-- The last one of a list of nodes with the address.
abbrev pub last_with : Bytes → List ProtoNode → Option ProtoNode
last_with address [] = none
last_with address (p ∷ l) = elim (last_with address l) [
  | none ↦ if p.address =ₛ address then some p else none
  | some q ↦ some q
]

-- What the cache has of an address after nodes have been cached, and had before.
abbrev pub Learned : Option ProtoNode → Option Cached → Option Cached → Type 0
Learned none before after = after ≡ before
Learned (some p) before after =
    (n : Node) × (convert_to_domain_node (some p) ≡ ok n) × (after ≡ some (Cached.node n))

node_ne_type : (address : Bytes) (n : Node) → Node.type_key n ≢ Node.key address
unfolding Node.type_key Node.key
node_ne_type address n = apart 0 b'k' refl refl

node_ne_authentication : (address h : Bytes) → Authentication.key h ≢ Node.key address
unfolding Authentication.key Node.key
node_ne_authentication address h = apart 6 b'a' refl refl

node_ne_node : (a b : Bytes) → (a =ₛ b) ≡ false → Node.key a ≢ Node.key b
unfolding Node.key
node_ne_node a b h e =
    false≢true (sym h ∙ (=ₛ_iff a b).1 (append_cancel (codes "table-node-") a b e))

same_address :
    (p : ProtoNode) (n : Node) → convert_to_domain_node (some p) ≡ ok n → n.address ≡ p.address
unfolding convert_to_domain_node
same_address p n e =
    let (grpc, e₁, f₁) = >>=-eq-ok (deref p.grpc_endpoint) _ e in
    let (http, e₂, f₂) = >>=-eq-ok (deref p.http_endpoint) _ f₁ in
    ap (λ (m : Node). m.address) (sym (ok-injective f₂))

module _ (s : Stores) (laws : IsCache s) where
  pub get-cache_node :
      (n : Node) (c : s.Cache) (address : Bytes)
      → s.cache_get (cache_node s n c) (Node.key address)
        ≡ (if n.address =ₛ address then some (Cached.node n) else s.cache_get c (Node.key address))
  unfolding cache_node
  get-cache_node n c address = elim (Bool-cases (n.address =ₛ address)) [
    | inl same ↦ rw same (
        laws.get-set_ne _ _ _ _ (node_ne_type address n)
        ∙ rw (← (=ₛ_iff n.address address).0 same) (laws.get-set_self c (Node.key n.address) _))
    | inr other ↦ rw other (
        laws.get-set_ne _ _ _ _ (node_ne_type address n)
        ∙ laws.get-set_ne _ _ _ _ (node_ne_node n.address address other))
  ]

  learn :
      (o : Option ProtoNode) (p : ProtoNode) (n : Node) (c : s.Cache) (address : Bytes)
      (after : Option Cached)
      → convert_to_domain_node (some p) ≡ ok n
      → Learned o (s.cache_get (cache_node s n c) (Node.key address)) after
      → Learned
          (elim o [ none ↦ if p.address =ₛ address then some p else none | some q ↦ some q ])
          (s.cache_get c (Node.key address))
          after
  learn (some q) p n c address after e l = l
  learn none p n c address after e l = elim (Bool-cases (p.address =ₛ address)) [
    | inl same ↦ rw same (n, e, l ∙ get-cache_node n c address ∙ rw (same_address p n e, same))
    | inr other ↦ rw other (l ∙ get-cache_node n c address ∙ rw (same_address p n e, other))
  ]

  cache_delegates-Learned :
      (delegates : List ProtoNode) (c c' : s.Cache) (address : Bytes)
      → cache_delegates s delegates c ≡ ok c'
      → Learned
          (last_with address delegates)
          (s.cache_get c (Node.key address))
          (s.cache_get c' (Node.key address))
  unfolding cache_delegates
  cache_delegates-Learned [] c c' address e =
      ap (λ (d : s.Cache). s.cache_get d (Node.key address)) (sym (ok-injective e))
  cache_delegates-Learned (p ∷ delegates) c c' address e =
      let (n, converted, rest) = >>=-eq-ok (convert_to_domain_node (some p)) _ e in
      learn (last_with address delegates) p n c address _ converted
        (cache_delegates-Learned delegates (cache_node s n c) c' address rest)

module _ (s : Stores) (x : External) (v : Service) (now : ℤ) where
  -- An update changes the cache only if it is from a seed, authenticated by it; then of each address
  -- that it has nodes of the last one is cached, and of the other addresses what was cached before.
  pub update_grpc-Learned :
      (u : Update) (c c' : s.Cache)
      → IsCache s
      → update_grpc s x v now u c ≡ ok c'
      → ((c₁ : s.Cache) × IsFromSeed s x v now u.authentication c c₁)
        × ((address : Bytes)
            → Learned
                (last_with address u.delegates)
                (s.cache_get c (Node.key address))
                (s.cache_get c' (Node.key address)))
  unfolding update_grpc cache_authentication
  update_grpc-Learned u c c' laws e =
      let (c₁, verified, rest) = >>=-eq-ok (verify_seed_node s x v now u.authentication c) _ e in
      let from = verify_seed_node-IsFromSeed s x v now u.authentication c c₁ verified in
      let same = λ (address : Bytes).
        ap (λ (d : s.Cache). s.cache_get d (Node.key address)) from.accepted.cached
        ∙ laws.get-set_ne c _ _ (Cached.authentication (domain from.sent))
            (node_ne_authentication address from.sent.hash) in
      (
        (c₁, from),
        λ address.
            subst
              (λ (before : Option Cached).
                Learned (last_with address u.delegates) before (s.cache_get c' (Node.key address)))
              (same address) (cache_delegates-Learned s laws u.delegates c₁ c' address rest),
      )

is_seed-HasAddress :
    (address : Bytes) (seeds : List Node) → is_seed address seeds ≡ true → HasAddress address seeds
unfolding is_seed
is_seed-HasAddress address [] e = cc
is_seed-HasAddress address (n ∷ seeds) e = elim (Bool-cases (n.address =ₛ address)) [
  | inl same ↦ inl ((=ₛ_iff n.address address).0 same)
  | inr other ↦ inr (is_seed-HasAddress address seeds (rw other at e))
]

module _ (x : External) (v : Service) where
  -- The software carries its hash, and a signature of it from which a seed's key is recovered.
  pub record IsReleased (u : SoftwareUpdate) : Type 0 where
    pub signature_bytes : Bytes
    pub public_key : Bytes
    pub hash_ok : hex_encode (Crypto.new_hash x u.software) ≡ u.hash
    pub signature_text : hex_decode u.signature ≡ some signature_bytes
    pub recovered : to_public_key x (Crypto.new_hash x u.software) signature_bytes ≡ some public_key
    pub seed : HasAddress (hex_encode (to_address x public_key)) v.seeds

  pub verify_software_update-IsReleased :
      (u : SoftwareUpdate) {t : Unit {0}} → verify_software_update x v u ≡ ok t → IsReleased u
  unfolding verify_software_update
  verify_software_update-IsReleased u e =
      let hash = Crypto.new_hash x u.software in
      let (t₁, e₁, f₁) = >>=-eq-ok (require (hex_encode hash =ₛ u.hash) invalid_hash) _ e in
      let (sb, e₂, f₂) = >>=-eq-ok (or_error undecodable_signature (hex_decode u.signature)) _ f₁ in
      let (key, e₃, f₃) = >>=-eq-ok (or_error no_public_key (to_public_key x hash sb)) _ f₂ in
      record {
        signature_bytes = sb;
        public_key = key;
        hash_ok = (=ₛ_iff _ u.hash).0 (require-eq-ok _ invalid_hash e₁);
        signature_text = or_error-eq-ok undecodable_signature _ e₂;
        recovered = or_error-eq-ok no_public_key _ e₃;
        seed = is_seed-HasAddress _ v.seeds (require-eq-ok _ not_authorized f₃);
      }

err_ne_ok : {A : Type 0} {e : Error} {a : A} → err e ≡ ok a → ⊥
err_ne_ok h = cc

panic_ne_ok : {A : Type 0} {a : A} → panic ≡ ok a → ⊥
panic_ne_ok h = cc

module _ (write_file : Bytes → Bytes → Option Error) where
  written-eq-ok : (i j : Install) (o : Option Error) → written i o ≡ ok j → (j ≡ i) × (o ≡ none)
  unfolding written
  written-eq-ok i j none e = (sym (ok-injective e), refl)
  written-eq-ok i j (some r) e = cc

  one_of_two :
      (b : Bool) (i j k : Install) (software : Bytes)
      → i.software ≡ software
      → j.software ≡ software
      → (if b then save write_file i else save write_file j) ≡ ok k
      → (k.software ≡ software) × (write_file k.file software ≡ none)
  unfolding save
  one_of_two true i j k software h h' e =
      let (same, done) = written-eq-ok i k _ e in
      (
        ap (λ (l : Install). l.software) same ∙ h,
        ap (λ (l : Install). write_file l.file software) same ∙ rw h at done,
      )
  one_of_two false i j k software h h' e =
      let (same, done) = written-eq-ok j k _ e in
      (
        ap (λ (l : Install). l.software) same ∙ h',
        ap (λ (l : Install). write_file l.file software) same ∙ rw h' at done,
      )

module _ (s : Stores) (x : External) (v : Service) (write_file : Bytes → Bytes → Option Error)
    (now : ℤ) where
  released :
      (u : SoftwareUpdate) (i : Install)
      → installed s x v write_file now u ≡ ok i
      → IsReleased x v u × (i.software ≡ u.software) × (write_file i.file u.software ≡ none)
  unfolding installed
  released u i e =
      let (t, verified, rest) = >>=-eq-ok (verify_software_update x v u) _ e in
      let done =
        one_of_two write_file (u.file_name =ₛ codes "disgo") _ _ i u.software refl refl rest in
      (verify_software_update-IsReleased x v u verified, done.0, done.1)

  both :
      (u : SoftwareUpdate) (r : Result s.Cache) (c c' : s.Cache) (i : Install)
      → after s x v write_file now u r c ≡ (c', ok i)
      → (r ≡ ok c') × (installed s x v write_file now u ≡ ok i)
  unfolding after
  both u (ok d) c c' i e = (
    ap (λ (p : s.Cache × Result Install). ok p.0) e,
    ap (λ (p : s.Cache × Result Install). p.1) e,
  )
  both u (err r) c c' i e = absurd (err_ne_ok (ap (λ (p : s.Cache × Result Install). p.1) e))
  both u panic c c' i e = absurd (panic_ne_ok (ap (λ (p : s.Cache × Result Install). p.1) e))

  -- A node installs a software only if a seed has sent it, which has signed the moment of sending,
  -- and a seed's key has signed its hash; what is written is that software.
  pub update_software_grpc-IsReleased :
      (u : SoftwareUpdate) (c c' : s.Cache) (i : Install)
      → update_software_grpc s x v write_file now u c ≡ (c', ok i)
      → IsFromSeed s x v now u.authentication c c'
        × IsReleased x v u
        × (i.software ≡ u.software)
        × (write_file i.file u.software ≡ none)
  unfolding update_software_grpc installed
  update_software_grpc-IsReleased u c c' i e =
      let (verified, done) = both u (verify_seed_node s x v now u.authentication c) c c' i e in
      let (valid, same, saved) = released u i done in
      (verify_seed_node-IsFromSeed s x v now u.authentication c c' verified, valid, same, saved)
