-- ===== src/Types/Node/RoundTrip.antt =====
-- Decoding of encoded nodes (json.Marshal and ToNodeFromJson of commons/types/node.go).
use disgo.Prelude.{◌≡◌, refl, ap, Option, none, some, IsExact, float_int64_self, arith}
use disgo.Crypto.{External}
use disgo.Types.Endpoint
use disgo.Types.Endpoint.{Endpoint}
use disgo.Types.Errors.{Result, ok, ◌>>=◌}
use disgo.Types.Json.{fields, as_map, read_string, must_string, must_number}
use disgo.Types.Node.{Node, marshal, from_json, endpoint_json, read_endpoint}

abbrev pub HasExactPort : Option Endpoint → Type 0
HasExactPort none = Unit {0}
HasExactPort (some e) = IsExact e.port

endpoint_lem : (e : Endpoint) → IsExact e.port → Endpoint.from_json (Endpoint.marshal e) ≡ ok e
unfolding Endpoint.from_json Endpoint.marshal as_map must_string must_number
endpoint_lem e h = simp fields (simp (float_int64_self e.port h))

read_endpoint_json :
    (o : Option Endpoint) → HasExactPort o → read_endpoint (some (endpoint_json o)) ≡ ok o
unfolding read_endpoint endpoint_json Endpoint.marshal
read_endpoint_json none h = refl
read_endpoint_json (some e) h =
    ap (λ (r : Result Endpoint). r >>= λ e. ok (some e)) (endpoint_lem e h)

module _ (x : External) where
  -- A node whose ports fit a float64 and whose time is read back from its text is decoded from its
  -- JSON unchanged.
  pub from_json-marshal_node :
      (n : Node)
      → HasExactPort n.grpc_endpoint
      → HasExactPort n.http_endpoint
      → x.parse_time (x.format_time n.status_time) ≡ some n.status_time
      → from_json x (marshal x n) ≡ ok n
  unfolding from_json marshal as_map read_string
  from_json-marshal_node n h h' t =
      simp (fields, read_endpoint_json n.grpc_endpoint h, read_endpoint_json n.http_endpoint h', t)
        (ground arith)
