-- ===== src/Disgover/Seed/Delegates.antt =====
-- Whom the seed takes for a delegate (PingSeedGrpc of disgover), and whom it tells the others of.
use mathlib.Core.Bool.{false≢true}
use disgo.Prelude.{
  ℕ, ◌+◌, ◌≡◌, refl, sym, ap, ◌∙◌, true, false, Bool-cases, Option, none, some, List, [], ◌∷◌, ◌⊎◌,
  inl, inr, Any, ℤ, if◌then◌else◌, arith,
}
use disgo.Prelude.Text.{Bytes, ◌=ₛ◌, =ₛ_iff, =ₛ_refl}
use disgo.Crypto.{External}
use disgo.Types.Errors.{Error, Result, ok, err, panic, ok-injective}
use disgo.Types.Node
use disgo.Types.Node.{Node}
use disgo.Types.Authentication.{Authentication, get_derived_address}
use disgo.Store.{Cached, Stores, IsCache}
use disgo.Store.Records.Authenticity.{IsAccepted, verify-IsAccepted}
use disgo.Store.Records.Nodes.{cache_node, set_node}
use disgo.Disgover.{ProtoAuthentication, ProtoNode, PingSeed, Update, Service}
use disgo.Disgover.Seed.{
  type_delegate, seen, unique, verified, delegate_type, admit, identify, reply, stored, admitted,
  identified, ping_seed_grpc,
}
use disgo.Disgover.Trust.{get-cache_node}
use disgo.Disgover.Seed.Sent.{identify-Sent}

-- The first node with an address, and how many there are.
abbrev pub first_with : Bytes → List Node → Option Node
first_with address [] = none
first_with address (n ∷ l) = if n.address =ₛ address then some n else first_with address l

abbrev pub count_with : Bytes → List Node → ℕ
count_with address [] = 0
count_with address (n ∷ l) = (if n.address =ₛ address then 1 else 0) + count_with address l

abbrev one_of : Option Node → ℕ
one_of none = 0
one_of (some n) = 1

seen_same : (k j : Bytes) (keys : List Bytes) → (k =ₛ j) ≡ true → seen k keys ≡ seen j keys
seen_same k j keys e = ap (λ (b : Bytes). seen b keys) ((=ₛ_iff k j).0 e)

-- The nodes of an address that has been seen are gone; of another one, the first is left.
unique_lem :
    (keys : List Bytes) (l : List Node) (address : Bytes)
    → (first_with address (unique keys l)
        ≡ (if seen address keys then none else first_with address l))
      × (count_with address (unique keys l)
          ≡ (if seen address keys then 0 else one_of (first_with address l)))
unfolding unique
unique_lem keys [] address = ground arith
unique_lem keys (n ∷ l) address = ground (
  arith,
  unique_lem keys l address,
  unique_lem (n.address ∷ keys) l address,
  seen_same n.address address keys,
)

-- Every address that some node has occurs once in the list of unique nodes, with the first node that
-- has it, and no other address occurs.
pub first_with-unique :
    (l : List Node) (address : Bytes)
    → (first_with address (unique [] l) ≡ first_with address l)
      × (count_with address (unique [] l) ≡ one_of (first_with address l))
first_with-unique l address = unique_lem [] l address

neither :
    (d : Bytes) (addresses : List Bytes) (address : Bytes)
    → (d =ₛ address) ≡ false
    → (Any (λ a. a ≡ address) addresses → ⊥)
    → Any (λ a. a ≡ address) (d ∷ addresses)
    → ⊥
neither d addresses address unlike nowhere (inl e) =
    false≢true (sym unlike ∙ (=ₛ_iff d address).1 e)
neither d addresses address unlike nowhere (inr h) = nowhere h

module _ (s : Stores) (x : External) (v : Service) (now : ℤ) where
  -- What the seed has in its cache of a node that has pinged it.
  abbrev Holds : Node → s.Cache → Type 0
  Holds n c = s.cache_get c (Node.key n.address) ≡ some (Cached.node n)

  -- A node that a seed admits, which has the addresses of the delegates: the one that has pinged it
  -- with an authentication of its own address. It is a delegate if its address is among those of the
  -- delegates and the authentication is accepted; else it is of the type that it says.
  pub record IsAdmitted (ping : PingSeed) (addresses : List Bytes) (c c' : s.Cache) : Type 0 where
    pub node : Node
    pub proof : ProtoAuthentication
    pub is_proven : ping.authentication ≡ some proof
    pub authentication : Authentication
    pub same_hash : authentication.hash ≡ proof.hash
    pub same_time : authentication.time ≡ proof.time
    pub same_signature : authentication.signature ≡ proof.signature
    pub sent : ProtoNode
    pub is_sent : ping.node ≡ some sent
    pub says : (node.address ≡ sent.address) × (node.type ≡ sent.type)
    pub derived : get_derived_address x authentication ≡ ok node.address
    pub decided :
        ((c₁ : s.Cache) × Any (λ a. a ≡ node.address) addresses
          × IsAccepted s x now authentication node.address c c₁
          × Holds (record node { type = type_delegate }) c')
        ⊎ ((Any (λ a. a ≡ node.address) addresses → ⊥) × Holds node c')

  -- What the loop over the addresses decides.
  abbrev Decided : Authentication → Node → List Bytes → s.Cache → Node × s.Cache → Type 0
  Decided a node addresses c (node', c₁) =
      (Any (λ d. d ≡ node.address) addresses
        × IsAccepted s x now a node.address c c₁
        × (record node { type = type_delegate } ≡ node'))
      ⊎ ((Any (λ d. d ≡ node.address) addresses → ⊥) × (node ≡ node'))

  reply_cache :
      (db : s.Db) (txn : s.Txn) (c : s.Cache) (r : Result (List Node))
      → (reply s x v now db txn c r).cache ≡ c
  unfolding reply
  reply_cache db txn c (ok l) = refl
  reply_cache db txn c (err e) = refl
  reply_cache db txn c panic = refl

  stored_cache :
      (db : s.Db) (c : s.Cache) (r : Result (s.Txn × Option Error))
      → (stored s x v now db c r).cache ≡ c
  unfolding stored
  stored_cache db c (ok (txn, e)) = reply_cache db txn c _
  stored_cache db c (err e) = refl
  stored_cache db c panic = refl

  verified-eq-ok :
      (a : Authentication) (node : Node) (r : Result s.Cache) (node' : Node) (c₁ : s.Cache)
      → verified s x now a node r ≡ ok (node', c₁)
      → (r ≡ ok c₁) × (record node { type = type_delegate } ≡ node')
  unfolding verified
  verified-eq-ok a node (ok c) node' c₁ e = (
    ap (λ (p : Node × s.Cache). ok p.1) (ok-injective e),
    ap (λ (p : Node × s.Cache). p.0) (ok-injective e),
  )
  verified-eq-ok a node (err r) node' c₁ e = cc
  verified-eq-ok a node panic node' c₁ e = cc

  delegate_type-Decided :
      (a : Authentication) (node : Node) (addresses : List Bytes) (c : s.Cache) (node' : Node)
      (c₁ : s.Cache)
      → delegate_type s x now a node addresses c ≡ ok (node', c₁)
      → Decided a node addresses c (node', c₁)
  unfolding delegate_type
  delegate_type-Decided a node [] c node' c₁ e =
      inr (λ h. h, ap (λ (p : Node × s.Cache). p.0) (ok-injective e))
  delegate_type-Decided a node (d ∷ addresses) c node' c₁ e =
      elim (Bool-cases (d =ₛ node.address)) [
        | inl same ↦
            let (accepted, is) = verified-eq-ok a node _ node' c₁ (rw same at e) in
            inl (
              inl ((=ₛ_iff d node.address).0 same),
              verify-IsAccepted s x now a node.address c c₁ accepted,
              is,
            )
        | inr unlike ↦ elim (delegate_type-Decided a node addresses c node' c₁ (rw unlike at e)) [
          | inl (there, accepted, is) ↦ inl (inr there, accepted, is)
          | inr (nowhere, is) ↦ inr (neither d addresses node.address unlike nowhere, is)
        ]
      ]

  admitted-eq-ok :
      (db : s.Db) (c : s.Cache) (r : Result (Node × s.Cache)) (u : Update)
      → (admitted s x v now db c r).answer ≡ ok u
      → (node : Node) × (c₁ : s.Cache) × (r ≡ ok (node, c₁))
        × ((admitted s x v now db c r).cache ≡ cache_node s node c₁)
  unfolding admitted set_node
  admitted-eq-ok db c (ok (node, c₁)) u e =
      (node, c₁, refl, stored_cache db (cache_node s node c₁) _)
  admitted-eq-ok db c (err r) u e = cc
  admitted-eq-ok db c panic u e = cc

  admit-Decided :
      (a : Authentication) (node : Node) (d : Bytes) (addresses : List Bytes) (c : s.Cache)
      (node' : Node) (c₁ : s.Cache)
      → admit s x now a node (d ∷ addresses) c ≡ ok (node', c₁)
      → Decided a node (d ∷ addresses) c (node', c₁)
  unfolding admit
  admit-Decided a node d addresses c node' c₁ e =
      delegate_type-Decided a node (d ∷ addresses) c node' c₁ e

  identified-eq-ok :
      (db : s.Db) (c : s.Cache) (r : Result (Node × Authentication)) (u : Update)
      → (identified s x v now db c r).answer ≡ ok u
      → (node : Node) × (a : Authentication) × (r ≡ ok (node, a))
        × ((admitted s x v now db c (admit s x now a node v.delegate_addresses c)).answer ≡ ok u)
        × ((identified s x v now db c r).cache
            ≡ (admitted s x v now db c (admit s x now a node v.delegate_addresses c)).cache)
  unfolding identified
  identified-eq-ok db c (ok (node, a)) u e = (node, a, refl, e, refl)
  identified-eq-ok db c (err r) u e = cc
  identified-eq-ok db c panic u e = cc

  Holds-cache_node :
      (laws : IsCache s) (n n' : Node) (c c' : s.Cache)
      → n ≡ n'
      → c' ≡ cache_node s n' c
      → Holds n c'
  Holds-cache_node laws n n' c c' is cached =
      ap (λ (d : s.Cache). s.cache_get d (Node.key n.address)) cached
      ∙ get-cache_node s laws n' c n.address
      ∙ rw (← is) (rw (=ₛ_refl n.address))

  -- Where a seed that has the addresses of the delegates answers a ping, the node is kept as a
  -- delegate if its address is one of those and the authentication that the ping has sent was
  -- accepted for it; a node of another address is kept with the type that it says of itself, also if
  -- that is a delegate's. In both cases the signature that was sent is of the node's address.
  pub ping_seed_grpc-IsAdmitted :
      (ping : PingSeed) (db : s.Db) (c : s.Cache) (u : Update) (d : Bytes) (addresses : List Bytes)
      → IsCache s
      → v.delegate_addresses ≡ d ∷ addresses
      → (ping_seed_grpc s x v now ping db c).answer ≡ ok u
      → IsAdmitted ping (d ∷ addresses) c (ping_seed_grpc s x v now ping db c).cache
  unfolding ping_seed_grpc
  ping_seed_grpc-IsAdmitted ping db c u d addresses laws given e =
      let (node, a, known, answered, cache) = identified-eq-ok db c (identify x v ping) u e in
      let (node', c₁, admits, kept) = admitted-eq-ok db c _ u answered in
      let decided = admit-Decided a node d addresses c node' c₁ (rw given at admits) in
      let sent = identify-Sent x v ping node a known in
      record {
        node = node;
        proof = sent.4.0;
        is_proven = sent.4.1;
        authentication = a;
        same_hash = sent.4.2;
        same_time = sent.4.3;
        same_signature = sent.4.4;
        sent = sent.0;
        is_sent = sent.1;
        says = sent.2;
        derived = sent.3;
        decided = elim decided [
          | inl (there, accepted, is) ↦
              inl (c₁, there, accepted, Holds-cache_node laws _ node' c₁ _ is (cache ∙ kept))
          | inr (nowhere, is) ↦ inr (nowhere, Holds-cache_node laws _ node' c₁ _ is (cache ∙ kept))
        ];
      }
