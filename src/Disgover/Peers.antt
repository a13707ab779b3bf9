-- ===== src/Disgover/Peers.antt =====
-- peerPingSeedGrpc, peerUpdateGrpc and peerUpdateSoftwareGrpc of disgover/disgover_transport_grpc.go,
-- and Go of disgover/disgover_service.go: what a node sends, with the remote calls as functions.
use disgo.Prelude.{Bool, true, false, Option, none, some, List, [], ◌∷◌, ℤ, if◌then◌else◌, ◌||◌}
use disgo.Prelude.Text.{Bytes, codes, ◌=ₛ◌, hex_decode, hex_encode}
use disgo.Crypto.{External, new_hash, new_signature}
use disgo.Types.Endpoint.{Endpoint}
use disgo.Types.Errors.{
  Error, Result, ok, err, panic, ◌>>=◌, or_error, other, undecodable_private_key, signing_failed,
}
use disgo.Types.Node.{Node}
use disgo.Types.Authentication.{new_authentication}
use disgo.Store.{Stores}
use disgo.Store.Records.Nodes.{cache_node, unset_node, to_nodes_by_type_from_cache}
use disgo.Disgover.{
  ProtoNode, PingSeed, Update, SoftwareUpdate, Service, deref, convert_to_domain_node,
  convert_to_proto_node, convert_to_proto_authentication, verify_seed_node, is_seed,
}
use disgo.Disgover.Seed.{type_seed, type_delegate, to_proto_nodes}

-- grpc.Dial and the call: no connection, an error, or the response, which may be nil.
pub data SeedReply : Type 0 where
  no_connection failed : Error → SeedReply
  response : Option Update → SeedReply

module _ (s : Stores) (x : External) (v : Service) (call : Endpoint → PingSeed → SeedReply)
    (now : ℤ) where
  domain_nodes : List ProtoNode → Result (List Node)
  domain_nodes [] = ok []
  domain_nodes (p ∷ l) = do
    n ← convert_to_domain_node (some p)
    rest ← domain_nodes l
    ok (n ∷ rest)

  -- utils.Fatal ends the process, as a panic does.
  pinged : SeedReply → s.Cache → Result (List Node × s.Cache)
  unfolding domain_nodes
  pinged (no_connection e) c = panic
  pinged (failed e) c = err e
  pinged (response none) c = err (other (codes "unable to ping seed node"))
  pinged (response (some u)) c = do
    c' ← verify_seed_node s x v now u.authentication c
    nodes ← domain_nodes u.delegates
    ok (nodes, c')

  -- peerPingSeedGrpc: its loop over the seeds returns in the first turn.
  unfoldable pub peer_ping_seed_grpc : List Node → s.Cache → Result (List Node × s.Cache)
  unfolding pinged
  peer_ping_seed_grpc [] c = err (other (codes "unable to ping any seed delegates"))
  peer_ping_seed_grpc (seed ∷ seeds) c = do
    endpoint ← deref seed.grpc_endpoint
    a ← new_authentication x v.private_key v.address now
    node ← convert_to_proto_node v.this_node
    let ping : PingSeed = record {
      authentication = some (convert_to_proto_authentication a);
      node = some node;
    }
    pinged (call endpoint ping) c

  -- The loop of Go over the delegates: they are cached, and tell this node its type.
  unfoldable pub learn_delegates : List Node → Node → s.Cache → Node × s.Cache
  learn_delegates [] this c = (this, c)
  learn_delegates (n ∷ nodes) this c =
      learn_delegates nodes
        (if n.address =ₛ this.address then record this { type = n.type } else this)
        (cache_node s n c)

  started : Node → Result (List Node × s.Cache) → Result (Node × s.Cache)
  unfolding learn_delegates
  started this (ok (nodes, c)) = ok (learn_delegates nodes this c)
  started this (err e) = panic
  started this panic = panic

  no_nodes : List Node → Bool
  no_nodes [] = true
  no_nodes (n ∷ l) = false

  -- Go: ThisNode, and the cache, with which the service runs. A seed asks nobody.
  unfoldable pub run_service : s.Cache → Result (Node × s.Cache)
  unfolding started no_nodes
  run_service c =
      if is_seed v.address v.seeds || no_nodes v.seeds
      then ok (record v.this_node { type = type_seed }, c)
      else if v.this_node.type =ₛ type_seed
      then ok (v.this_node, c)
      else started v.this_node (peer_ping_seed_grpc v.seeds c)

-- The calls that were made, in order, and the cache after them. What is deleted from the database's
-- transaction is lost, since that is discarded.
pub record Calls (s : Stores) (Message : Type 0) : Type 0 where
  pub sent : List (Endpoint × Message)
  pub cache : s.Cache

module _ (s : Stores) (x : External) (dial : Endpoint → Bool) (db : s.Db) where
  -- The loop over the delegates: one that cannot be dialled is deleted from the cache, and a call
  -- that fails is only logged.
  unfoldable pub deliver :
      {Message : Type 0} → Message → List Node → s.Cache → Result (Calls s Message)
  deliver m [] c = ok (record { sent = []; cache = c })
  deliver m (n ∷ nodes) c = do
    e ← deref n.grpc_endpoint
    calls ← deliver m nodes (if dial e then c else (unset_node s x n (s.new_transaction db) c).0)
    ok (record calls { sent = if dial e then (e, m) ∷ calls.sent else calls.sent })

-- An error is logged, and ends the sending.
abbrev quietly : {s : Stores} {M : Type 0} → s.Cache → Result (Calls s M) → Result (Calls s M)
quietly c (ok calls) = ok calls
quietly c (err e) = ok (record { sent = []; cache = c })
quietly c panic = panic

module _ (s : Stores) (x : External) (v : Service) (dial : Endpoint → Bool) (db : s.Db)
    (now : ℤ) where
  -- peerUpdateGrpc
  unfoldable pub peer_update_grpc : s.Cache → Result (Calls s Update)
  unfolding quietly
  peer_update_grpc c = quietly c (do
    delegates ← to_nodes_by_type_from_cache s c type_delegate
    nodes ← to_proto_nodes delegates
    a ← new_authentication x v.private_key v.address now
    let update : Update = record {
      authentication = some (convert_to_proto_authentication a);
      delegates = nodes;
    }
    deliver s x dial db update delegates c)

  -- peerUpdateSoftwareGrpc, with the time of the day two minutes later as an argument
  unfoldable pub peer_update_software_grpc :
      Bytes → Bytes → Bytes → s.Cache → Result (Calls s SoftwareUpdate)
  unfolding quietly
  peer_update_software_grpc reboot file_name software c = quietly c (do
    delegates ← to_nodes_by_type_from_cache s c type_delegate
    a ← new_authentication x v.private_key v.address now
    let hash = new_hash x software
    private_key ← or_error undecodable_private_key (hex_decode v.private_key)
    signature ← or_error signing_failed (new_signature x private_key hash)
    let update : SoftwareUpdate = record {
      authentication = some (convert_to_proto_authentication a);
      hash = hex_encode hash;
      file_name = file_name;
      software = software;
      signature = hex_encode signature;
      scheduled_reboot = reboot;
    }
    deliver s x dial db update delegates c)
