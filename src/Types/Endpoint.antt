-- ===== src/Types/Endpoint.antt =====
-- commons/types/endpoint.go: where a node can be called.
use disgo.Prelude.{false, [], ℤ, pos}
use disgo.Prelude.Text.{Bytes, codes}
use disgo.Types.Errors.{Result, ok, ◌>>=◌}
use disgo.Types.Json.{Json, num, str, obj, end, put, as_map, must_string, must_number}

pub record Endpoint : Type 0 where
  pub host : Bytes
  pub port : ℤ

abbrev pub empty : Endpoint
empty = record { host = []; port = pos 0 }

-- UnmarshalJSON into an empty value
unfoldable pub from_json : Json → Result Endpoint
from_json j = do
  m ← as_map j
  host ← must_string (codes "host") empty.host m
  port ← must_number (codes "port") empty.port m
  ok (record { host = host; port = port })

unfoldable pub marshal : Endpoint → Json
marshal e = obj (put false (codes "host") (str e.host) (put false (codes "port") (num e.port) end))
