-- ===== src/Disgover/Tests.antt =====
-- A seed at alice's address, one delegate address (bob's), and the messages between nodes.
use disgo.Prelude.{
  ◌≡◌, refl, false, Option, none, some, [], ◌∷◌, inl, pos, ltb_ℤ, sub64, wrap64, ◌-ℤ◌, float_int64,
}
use disgo.Prelude.Text.{Bytes, codes, has_prefix, hex_encode, hex_decode, write_int64}
use disgo.Crypto
use disgo.Crypto.Toy.{toy, toy-IsKeyPair, toy_key, toy_public_key, fill}
use disgo.Types.Endpoint
use disgo.Types.Endpoint.{Endpoint}
use disgo.Types.Errors.{Error, ok}
use disgo.Types.Node
use disgo.Types.Node.{Node}
use disgo.Types.Authentication
use disgo.Types.Authentication.{Authentication}
use disgo.Types.Json
use disgo.Store.{assoc_stores, assoc_IsCache, lookup, without, entries, latest}
use disgo.Store.Records.Authenticity.{verify, cache_authentication, to_authentication_from_cache}
use disgo.Store.Records.Nodes.{
  cache_node, set_node, persist_node, to_nodes_by_type, load_nodes, to_node_by_key, type_keys,
  nodes_at, nodes_under, to_nodes_by_type_from_cache,
}
use disgo.Disgover.{
  ProtoAuthentication, ProtoNode, PingSeed, Update, SoftwareUpdate, Service, Install,
  convert_to_domain_node, convert_to_proto_node, convert_to_domain_authentication,
  convert_to_proto_authentication, verify_as, verify_seed_node, cache_delegates, update_grpc,
  is_seed, verify_software_update, update_software_grpc,
}
use disgo.Disgover.Seed.{
  unique, to_proto_nodes, identify, answer_with, delegate_type, admit, known_delegates,
  ping_seed_grpc,
}
use disgo.Disgover.Seed.Delegates.{IsAdmitted, ping_seed_grpc-IsAdmitted}
use disgo.Disgover.Trust.{
  IsFromSeed, IsReleased, Learned, last_with, update_grpc-Learned, update_software_grpc-IsReleased,
}
use disgo.Disgover.Handshake.{new_authentication-verify_seed_node}

abbrev alice : Bytes
alice = hex_encode (fill 20 64)

abbrev bob : Bytes
bob = hex_encode (fill 20 2)

abbrev endpoint : Endpoint
endpoint = record { host = codes "h"; port = pos 1973 }

abbrev node : Bytes → Bytes → Node
node address type = record Node.empty {
  address = address;
  grpc_endpoint = some endpoint;
  http_endpoint = some endpoint;
  type = type;
}

abbrev sent_node : Bytes → Bytes → ProtoNode
sent_node address type = record {
  address = address;
  grpc_endpoint = some endpoint;
  http_endpoint = some endpoint;
  type = type;
}

abbrev seed : Service
seed = record {
  seeds = node alice (codes "Seed") ∷ [];
  delegate_addresses = bob ∷ [];
  private_key = hex_encode toy_key;
  address = alice;
  this_node = node alice (codes "Seed");
}

abbrev authentication : Authentication
authentication = record Authentication.empty {
  hash = hex_encode (fill 32 8);
  time = pos 1000;
  signature = hex_encode (fill 65 32);
}

abbrev own : ProtoAuthentication
own = record { hash = hex_encode (fill 32 8); time = pos 1000; signature = hex_encode (fill 65 32) }

abbrev update : Update
update = record { authentication = some own; delegates = sent_node bob (codes "Delegate") ∷ [] }

updated :
    update_grpc assoc_stores toy seed (pos 2000) update []
    ≡ ok (
        cache_node assoc_stores
          (node bob (codes "Delegate"))
          (cache_authentication assoc_stores authentication []))
unfolding update_grpc verify_seed_node verify_as convert_to_domain_authentication
    convert_to_domain_node cache_delegates verify to_authentication_from_cache lookup
    Authentication.new_hash Authentication.get_derived_address Authentication.check_signature
    Crypto.new_hash Crypto.to_address Crypto.to_public_key Crypto.verify_signature hex_encode
    hex_decode write_int64 fill sub64 wrap64 ◌-ℤ◌ cache_authentication cache_node
updated = refl

update_grpc-Learned_example :
    ((c₁ : _) × IsFromSeed assoc_stores toy seed (pos 2000) (some own) [] c₁)
    × ((address : Bytes)
        → Learned
            (last_with address (sent_node bob (codes "Delegate") ∷ []))
            (assoc_stores.cache_get [] (Node.key address))
            (assoc_stores.cache_get
              (cache_node assoc_stores
                (node bob (codes "Delegate"))
                (cache_authentication assoc_stores authentication []))
              (Node.key address)))
update_grpc-Learned_example =
    update_grpc-Learned assoc_stores toy seed (pos 2000) update []
      (cache_node assoc_stores (node bob (codes "Delegate"))
        (cache_authentication assoc_stores authentication []))
      assoc_IsCache updated

made :
    Authentication.new_authentication toy (hex_encode toy_key) alice (pos 1000) ≡ ok authentication
unfolding Authentication.new_authentication Authentication.new_signature_of
    Authentication.get_derived_address Authentication.new_hash Crypto.new_hash Crypto.to_address
    Crypto.to_public_key Crypto.new_signature hex_encode hex_decode write_int64 fill
made = refl

key_text : hex_decode (hex_encode toy_key) ≡ some toy_key
unfolding hex_encode hex_decode fill
key_text = refl

still_young : ltb_ℤ (pos 5000) (sub64 (pos 3000) (pos 1000)) ≡ false
unfolding sub64 wrap64 ◌-ℤ◌
still_young = refl

unknown : assoc_stores.cache_get [] (Authentication.key alice) ≡ none
unfolding lookup
unknown = refl

new_authentication-verify_seed_node_example :
    verify_seed_node assoc_stores toy seed
      (pos 3000)
      (some (convert_to_proto_authentication authentication))
      []
    ≡ ok (cache_authentication assoc_stores authentication [])
new_authentication-verify_seed_node_example =
    new_authentication-verify_seed_node assoc_stores toy seed (pos 3000) (hex_encode toy_key)
      toy_key toy_public_key alice (pos 1000) authentication [] toy-IsKeyPair key_text made
      (inl refl) still_young unknown

-- Alice, who is no delegate, says that she is one.
abbrev ping : PingSeed
ping = record { authentication = some own; node = some (sent_node alice (codes "Delegate")) }

abbrev answer : Update
answer = record { authentication = some own; delegates = sent_node alice (codes "Delegate") ∷ [] }

believed : (ping_seed_grpc assoc_stores toy seed (pos 1000) ping [] []).answer ≡ ok answer
unfolding ping_seed_grpc identify admit delegate_type set_node persist_node cache_node
    known_delegates to_nodes_by_type load_nodes to_node_by_key entries has_prefix Node.marshal
    Node.from_json Node.key Node.type_key Endpoint.marshal Endpoint.from_json Json.find Json.put
    Json.as_map Json.read_string Json.must_string Json.must_number type_keys nodes_under nodes_at
    to_nodes_by_type_from_cache latest without lookup unique to_proto_nodes convert_to_proto_node
    convert_to_domain_node convert_to_domain_authentication convert_to_proto_authentication
    answer_with Authentication.new_authentication Authentication.new_signature_of
    Authentication.get_derived_address Authentication.new_hash Crypto.new_hash Crypto.to_address
    Crypto.to_public_key Crypto.new_signature hex_encode hex_decode write_int64 fill float_int64
    wrap64
believed = refl

ping_seed_grpc-IsAdmitted_example :
    IsAdmitted assoc_stores toy seed
      (pos 1000)
      ping
      (bob ∷ [])
      []
      (ping_seed_grpc assoc_stores toy seed (pos 1000) ping [] []).cache
ping_seed_grpc-IsAdmitted_example =
    ping_seed_grpc-IsAdmitted assoc_stores toy seed (pos 1000) ping [] [] answer bob []
      assoc_IsCache refl believed

abbrev software : SoftwareUpdate
software = record {
  authentication = some own;
  hash = hex_encode (fill 32 2);
  file_name = codes "disgo";
  software = 1 ∷ 2 ∷ [];
  signature = hex_encode (fill 65 32);
  scheduled_reboot = codes "12:00";
}

abbrev writes : Bytes → Bytes → Option Error
writes file content = none

abbrev install : Install
install = record { file = codes "./disgo"; software = 1 ∷ 2 ∷ []; reboot = some (codes "12:00") }

did_install :
    update_software_grpc assoc_stores toy seed writes (pos 2000) software []
    ≡ (cache_authentication assoc_stores authentication [], ok install)
unfolding update_software_grpc verify_software_update is_seed verify_seed_node verify_as
    convert_to_domain_authentication verify to_authentication_from_cache lookup
    Authentication.new_hash Authentication.get_derived_address Authentication.check_signature
    Crypto.new_hash Crypto.to_address Crypto.to_public_key Crypto.verify_signature hex_encode
    hex_decode write_int64 fill sub64 wrap64 ◌-ℤ◌ cache_authentication
did_install = refl

update_software_grpc-IsReleased_example :
    IsFromSeed assoc_stores toy seed
      (pos 2000)
      (some own)
      []
      (cache_authentication assoc_stores authentication [])
    × IsReleased toy seed software
    × (◌≡◌ {A = Bytes} (1 ∷ 2 ∷ []) (1 ∷ 2 ∷ []))
    × (writes (codes "./disgo") (1 ∷ 2 ∷ []) ≡ none)
update_software_grpc-IsReleased_example =
    update_software_grpc-IsReleased assoc_stores toy seed writes (pos 2000) software []
      (cache_authentication assoc_stores authentication []) install did_install
