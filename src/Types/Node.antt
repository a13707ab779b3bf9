-- ===== src/Types/Node.antt =====
-- commons/types/node.go: a node of the network, its keys and its JSON, and whether it may be called.
pub mod RoundTrip
use disgo.Prelude.{
  negsuc, ◌-ℤ◌, Bool, true, false, not, Option, none, some, [], ◌++◌, ◌∷◌, ℤ, pos, ltb_ℤ, sub64,
  if◌then◌else◌,
}
use disgo.Prelude.Text.{Bytes, codes, ◌=ₛ◌}
use disgo.Crypto.{External}
use disgo.Types.Constants.{node_unavailable, status_text}
use disgo.Types.Endpoint
use disgo.Types.Endpoint.{Endpoint}
use disgo.Types.Errors.{Error, Result, ok, err, panic, ◌>>=◌, bad_time, must_be_string}
use disgo.Types.Json.{Json, null, str, obj, end, Fields, put, find, as_map, read_string}
use disgo.Types.Receipt.{is_empty}

-- The endpoints are pointers.
pub record Node : Type 0 where
  pub address : Bytes
  pub grpc_endpoint : Option Endpoint
  pub http_endpoint : Option Endpoint
  pub type : Bytes
  pub status : Bytes
  -- nanoseconds; the zero time is written as 0
  pub status_time : ℤ

-- &Node{}: the zero time is the first of January of the year 1.
abbrev pub empty : Node
empty = record {
  address = [];
  grpc_endpoint = none;
  http_endpoint = none;
  type = [];
  status = [];
  status_time = negsuc 62135596799999999999;
}

-- time.Sub: a difference beyond an int64 of nanoseconds is the last one that there is.
unfoldable saturate : ℤ → ℤ
saturate d =
    if ltb_ℤ (pos 9223372036854775807) d
    then pos 9223372036854775807
    else if ltb_ℤ d (negsuc 9223372036854775807)
    then negsuc 9223372036854775807
    else d

-- IsAvailable at `now` in nanoseconds: the number of seconds is compared with 5e9.
unfoldable pub is_available : ℤ → Node → Bool
unfolding saturate
is_available now n =
    if n.status =ₛ status_text node_unavailable
    then not (ltb_ℤ (saturate (now -ℤ n.status_time)) (pos 5000000000000000000))
    else true

-- Key
unfoldable pub key : Bytes → Bytes
key address = codes "table-node-" ++ address

-- TypeKey
unfoldable pub type_key : Node → Bytes
type_key n = codes "key-node-type-" ++ (n.type ++ (b'-' ∷ n.address))

endpoint_json : Option Endpoint → Json
endpoint_json none = null
endpoint_json (some e) = Endpoint.marshal e

-- A pointer: null clears it, and anything else goes to the endpoint's UnmarshalJSON.
read_endpoint : Option Json → Result (Option Endpoint)
read_endpoint none = ok none
read_endpoint (some null) = ok none
read_endpoint (some j) = Endpoint.from_json j >>= λ e. ok (some e)

module _ (x : External) where
  -- json.Marshal by the tags of the fields; `omitempty` has no effect on a time.
  unfoldable pub marshal : Node → Json
  unfolding endpoint_json
  marshal n = obj (
      put false (codes "address") (str n.address) (
        put false (codes "grpcEndpoint") (endpoint_json n.grpc_endpoint) (
          put false (codes "httpEndpoint") (endpoint_json n.http_endpoint) (
            put (is_empty n.type) (codes "type") (str n.type) (
              put (is_empty n.status) (codes "status") (str n.status)
                (put false (codes "statusTime") (str (x.format_time n.status_time)) end))))))

  parsed : Error → Option ℤ → Result ℤ
  parsed e none = err e
  parsed e (some t) = ok t

  read_time : Option Json → Result ℤ
  unfolding parsed
  read_time none = ok empty.status_time
  read_time (some null) = ok empty.status_time
  read_time (some (str s)) = parsed (bad_time s) (x.parse_time s)
  read_time (some _) = err (must_be_string (codes "statusTime"))

  -- ToNodeFromJson: json.Unmarshal by the tags, for fields in the spelling of the tags.
  unfoldable pub from_json : Json → Result Node
  unfolding read_endpoint read_time
  from_json j = do
    m ← as_map j
    address ← read_string (codes "address") empty.address m
    grpc ← read_endpoint (find (codes "grpcEndpoint") m)
    http ← read_endpoint (find (codes "httpEndpoint") m)
    type ← read_string (codes "type") empty.type m
    status ← read_string (codes "status") empty.status m
    time ← read_time (find (codes "statusTime") m)
    ok (record {
      address = address;
      grpc_endpoint = grpc;
      http_endpoint = http;
      type = type;
      status = status;
      status_time = time;
    })
