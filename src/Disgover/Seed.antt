-- ===== src/Disgover/Seed.antt =====
-- PingSeedGrpc, peerPingSeedGrpc, peerUpdateGrpc and Go of disgover: how a node finds the delegates,
-- and what the seed keeps and tells of them.
pub mod Delegates
pub mod Sent
use disgo.Prelude.{
  Bool, true, false, Option, none, some, List, [], ◌∷◌, ◌++◌, ℤ, if◌then◌else◌, ◌||◌,
}
use disgo.Prelude.Text.{Bytes, codes, ◌=ₛ◌}
use disgo.Crypto.{External}
use disgo.Types.Endpoint.{Endpoint}
use disgo.Types.Errors.{Error, Result, ok, err, panic, ◌>>=◌, ◌>>◌, require, other, error_text}
use disgo.Types.Node.{Node}
use disgo.Types.Authentication.{Authentication, get_derived_address, new_authentication}
use disgo.Store.{Stores}
use disgo.Store.Records.Authenticity.{verify}
use disgo.Store.Records.Nodes.{
  cache_node, set_node, unset_node, to_nodes_by_type, to_nodes_by_type_from_cache,
}
use disgo.Disgover.{
  ProtoNode, PingSeed, Update, Service, deref, convert_to_domain_node, convert_to_proto_node,
  convert_to_domain_authentication, convert_to_proto_authentication, verify_seed_node,
}

abbrev pub type_seed : Bytes
type_seed = codes "Seed"

abbrev pub type_delegate : Bytes
type_delegate = codes "Delegate"

abbrev pub seen : Bytes → List Bytes → Bool
seen address [] = false
seen address (k ∷ keys) = if k =ₛ address then true else seen address keys

-- "only allow unique values": the loop with its map of addresses.
unfoldable pub unique : List Bytes → List Node → List Node
unique keys [] = []
unique keys (n ∷ nodes) =
    let new = n ∷ unique (n.address ∷ keys) nodes in
    let old = unique keys nodes in if seen n.address keys then old else new

unfoldable pub to_proto_nodes : List Node → Result (List ProtoNode)
to_proto_nodes [] = ok []
to_proto_nodes (n ∷ nodes) = do
  p ← convert_to_proto_node n
  rest ← to_proto_nodes nodes
  ok (p ∷ rest)

abbrev pub unable : Result Bytes → Result Bytes
unable (ok b) = ok b
unable (err e) =
    err (other (codes "unable to authenticate you [error=" ++ (error_text e ++ codes "]")))
unable panic = panic

-- What a handler leaves and answers.
pub record Outcome (s : Stores) : Type 0 where
  pub cache : s.Cache
  pub db : s.Db
  pub answer : Result Update

module _ (x : External) (v : Service) where
  -- From the check of the type of this node to that of the sender's address.
  unfoldable pub identify : PingSeed → Result (Node × Authentication)
  identify ping = do
    require (v.this_node.type =ₛ type_seed) (other (codes "you pinged a non-seed node"))
    node ← convert_to_domain_node ping.node
    a ← convert_to_domain_authentication ping.authentication
    derived ← unable (get_derived_address x a)
    require (derived =ₛ node.address) (other (codes "unable to authenticate you")) >> ok (node, a)

  unfoldable pub answer_with : ℤ → List Node → Result Update
  answer_with now delegates = do
    nodes ← to_proto_nodes delegates
    a ← new_authentication x v.private_key v.address now
    ok (record { authentication = some (convert_to_proto_authentication a); delegates = nodes })

module _ (s : Stores) (x : External) (now : ℤ) (a : Authentication) where
  verified : Node → Result s.Cache → Result (Node × s.Cache)
  verified node (ok c') = ok (record node { type = type_delegate }, c')
  verified node (err e) = err (other (codes "unable to authenticate you as a delegate"))
  verified node panic = panic

  -- The loop over the delegate addresses: the first one that is the node's decides, and one that
  -- is not among them keeps the type that it has sent.
  unfoldable pub delegate_type : Node → List Bytes → s.Cache → Result (Node × s.Cache)
  unfolding verified
  delegate_type node [] c = ok (node, c)
  delegate_type node (d ∷ addresses) c =
      let next = delegate_type node addresses c in
      if d =ₛ node.address then verified node (verify s x now a node.address c) else next

  -- "If delegate addresses is not set all nodes other than seed become a delegate"
  unfoldable pub admit : Node → List Bytes → s.Cache → Result (Node × s.Cache)
  admit node [] c = ok (record node { type = type_delegate }, c)
  admit node (d ∷ addresses) c = delegate_type node (d ∷ addresses) c

module _ (s : Stores) (x : External) where
  -- The answer: the stored delegates, then those in the cache, each address once.
  unfoldable pub known_delegates : s.Txn → s.Cache → Result (List Node)
  known_delegates txn c = do
    cached ← to_nodes_by_type_from_cache s c type_delegate
    stored ← to_nodes_by_type s x txn type_delegate
    ok (unique [] (stored ++ cached))

module _ (s : Stores) (x : External) (v : Service) (now : ℤ) where
  reply : s.Db → s.Txn → s.Cache → Result (List Node) → Outcome s
  reply db txn c (ok delegates) = record {
    cache = c;
    db = (s.commit txn db).1;
    answer = answer_with x v now delegates;
  }
  reply db txn c (err e) = record { cache = c; db = db; answer = err e }
  reply db txn c panic = record { cache = c; db = db; answer = panic }

  stored : s.Db → s.Cache → Result (s.Txn × Option Error) → Outcome s
  unfolding reply
  stored db c (ok (txn, e)) = reply db txn c (known_delegates s x txn c)
  stored db c (err e) = record { cache = c; db = db; answer = err e }
  stored db c panic = record { cache = c; db = db; answer = panic }

  admitted : s.Db → s.Cache → Result (Node × s.Cache) → Outcome s
  unfolding stored
  admitted db c (ok (node, c')) =
      let (cache, txn) = set_node s x node (s.new_transaction db) c' in stored db cache txn
  admitted db c (err e) = record { cache = c; db = db; answer = err e }
  admitted db c panic = record { cache = c; db = db; answer = panic }

  identified : s.Db → s.Cache → Result (Node × Authentication) → Outcome s
  unfolding admitted
  identified db c (ok (node, a)) = admitted db c (admit s x now a node v.delegate_addresses c)
  identified db c (err e) = record { cache = c; db = db; answer = err e }
  identified db c panic = record { cache = c; db = db; answer = panic }

  -- PingSeedGrpc; the update of the peers that it starts half a second later is `peer_update`.
  unfoldable pub ping_seed_grpc : PingSeed → s.Db → s.Cache → Outcome s
  unfolding identified
  ping_seed_grpc ping db c = identified db c (identify x v ping)
