-- ===== src/Disgover.antt =====
-- disgover/disgover_service.go and disgover_transport_grpc.go: the service by which nodes find each
-- other, the messages of its protocol, and which of them a node trusts.

pub mod Seed
pub mod Trust
pub mod Handshake
pub mod Peers
mod Tests
use disgo.Prelude.{Bool, true, false, Option, none, some, List, [], ◌∷◌, ◌++◌, ℤ, if◌then◌else◌}
use disgo.Prelude.Text.{Bytes, codes, ◌=ₛ◌, hex_decode, hex_encode}
use disgo.Crypto.{External, new_hash, to_public_key, to_address}
use disgo.Types.Endpoint.{Endpoint}
use disgo.Types.Errors.{
  Error, Result, ok, err, panic, ◌>>=◌, ◌>>◌, require, other, error_text, invalid_hash, or_error,
  undecodable_signature, no_public_key,
}
use disgo.Types.Node
use disgo.Types.Node.{Node}
use disgo.Types.Authentication
use disgo.Types.Authentication.{Authentication, get_derived_address}
use disgo.Store.{Stores}
use disgo.Store.Records.Authenticity.{verify}
use disgo.Store.Records.Nodes.{cache_node}

-- The messages of disgover/proto/disgover.proto; those inside others are pointers.
pub record ProtoAuthentication : Type 0 where
  pub hash : Bytes
  pub time : ℤ
  pub signature : Bytes

pub record ProtoNode : Type 0 where
  pub address : Bytes
  pub grpc_endpoint : Option Endpoint
  pub http_endpoint : Option Endpoint
  pub type : Bytes

pub record PingSeed : Type 0 where
  pub authentication : Option ProtoAuthentication
  pub node : Option ProtoNode

pub record Update : Type 0 where
  pub authentication : Option ProtoAuthentication
  pub delegates : List ProtoNode

pub record SoftwareUpdate : Type 0 where
  pub authentication : Option ProtoAuthentication
  pub hash : Bytes
  pub file_name : Bytes
  pub software : Bytes
  pub signature : Bytes
  pub scheduled_reboot : Bytes

-- types.GetConfig and types.GetAccount, as far as the service reads them, and ThisNode.
pub record Service : Type 0 where
  pub seeds : List Node
  pub delegate_addresses : List Bytes
  pub private_key : Bytes
  pub address : Bytes
  pub this_node : Node

-- `p.Host` and the like panic where the pointer is nil.
abbrev pub deref {ℓ} : {A : Type ℓ} → Option A → Result A
deref none = panic
deref (some a) = ok a

unfoldable pub convert_to_domain_node : Option ProtoNode → Result Node
convert_to_domain_node p = do
  n ← deref p
  grpc ← deref n.grpc_endpoint
  http ← deref n.http_endpoint
  ok (record Node.empty {
    address = n.address;
    grpc_endpoint = some grpc;
    http_endpoint = some http;
    type = n.type;
  })

unfoldable pub convert_to_proto_node : Node → Result ProtoNode
convert_to_proto_node n = do
  grpc ← deref n.grpc_endpoint
  http ← deref n.http_endpoint
  ok (record {
    address = n.address;
    grpc_endpoint = some grpc;
    http_endpoint = some http;
    type = n.type;
  })

unfoldable pub convert_to_domain_authentication : Option ProtoAuthentication → Result Authentication
convert_to_domain_authentication p = do
  a ← deref p
  ok (record Authentication.empty { hash = a.hash; time = a.time; signature = a.signature })

unfoldable pub convert_to_proto_authentication : Authentication → ProtoAuthentication
convert_to_proto_authentication a = record { hash = a.hash; time = a.time; signature = a.signature }

abbrev pub not_authorized : Error
not_authorized = other (codes "you are not an authorized seed node")

-- fmt.Sprintf("you are not an authorized seed node [err=%s]", err.Error())
abbrev pub not_authorized_since : Error → Error
not_authorized_since e =
    other (codes "you are not an authorized seed node [err=" ++ (error_text e ++ codes "]"))

abbrev pub wrap_error {ℓ} : {A : Type ℓ} → Result A → Result A
wrap_error (err e) = err (not_authorized_since e)
wrap_error (ok a) = ok a
wrap_error panic = panic

module _ (s : Stores) where
  -- The loop of UpdateGrpc
  unfoldable pub cache_delegates : List ProtoNode → s.Cache → Result s.Cache
  cache_delegates [] c = ok c
  cache_delegates (p ∷ delegates) c = do
    n ← convert_to_domain_node (some p)
    cache_delegates delegates (cache_node s n c)

module _ (s : Stores) (x : External) (v : Service) (now : ℤ) where
  -- The loop of verifySeedNode: the first seed of the address decides.
  unfoldable pub verify_as : Authentication → Bytes → List Node → s.Cache → Result s.Cache
  verify_as a derived [] c = err not_authorized
  verify_as a derived (seed ∷ seeds) c =
      let next = verify_as a derived seeds c in
      if seed.address =ₛ derived then wrap_error (verify s x now a seed.address c) else next

  -- verifySeedNode; with an error the cache is left as it is
  unfoldable pub verify_seed_node : Option ProtoAuthentication → s.Cache → Result s.Cache
  verify_seed_node none c = err not_authorized
  verify_seed_node (some p) c = do
    a ← convert_to_domain_authentication (some p)
    derived ← get_derived_address x a
    verify_as a derived v.seeds c

  -- UpdateGrpc
  unfoldable pub update_grpc : Update → s.Cache → Result s.Cache
  update_grpc u c = do c' ← verify_seed_node u.authentication c; cache_delegates s u.delegates c'

-- The loop over the seeds at the end of verifySoftwareUpdate
unfoldable pub is_seed : Bytes → List Node → Bool
is_seed address [] = false
is_seed address (seed ∷ seeds) = if seed.address =ₛ address then true else is_seed address seeds

module _ (x : External) (v : Service) where
  -- verifySoftwareUpdate
  unfoldable pub verify_software_update : SoftwareUpdate → Result (Unit {0})
  verify_software_update u = do
    let hash = new_hash x u.software
    require (hex_encode hash =ₛ u.hash) invalid_hash
    signature ← or_error undecodable_signature (hex_decode u.signature)
    public_key ← or_error no_public_key (to_public_key x hash signature)
    require (is_seed (hex_encode (to_address x public_key)) v.seeds) not_authorized

-- What is written to the disk, and the time of the day at which the node ends itself to start anew.
pub record Install : Type 0 where
  pub file : Bytes
  pub software : Bytes
  pub reboot : Option Bytes

written : Install → Option Error → Result Install
written i none = ok i
written i (some e) = err e

module _ (write_file : Bytes → Bytes → Option Error) where
  save : Install → Result Install
  unfolding written
  save i = written i (write_file i.file i.software)

module _ (s : Stores) (x : External) (v : Service) (write_file : Bytes → Bytes → Option Error)
    (now : ℤ) where
  installed : SoftwareUpdate → Result Install
  unfolding save
  installed u = do
    verify_software_update x v u
    if u.file_name =ₛ codes "disgo"
        then save write_file (record {
          file = codes "./disgo";
          software = u.software;
          reboot = some u.scheduled_reboot;
        })
        else save write_file
            (record { file = codes "./disgo-update"; software = u.software; reboot = none })

  after : SoftwareUpdate → Result s.Cache → s.Cache → s.Cache × Result Install
  unfolding installed
  after u (ok c') c = (c', installed u)
  after u (err e) c = (c, err e)
  after u panic c = (c, panic)

  -- UpdateSoftwareGrpc
  unfoldable pub update_software_grpc : SoftwareUpdate → s.Cache → s.Cache × Result Install
  unfolding after
  update_software_grpc u c = after u (verify_seed_node s x v now u.authentication c) c
