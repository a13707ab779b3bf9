-- ===== src/Types/Rumor/RoundTrip.antt =====
-- Decoding of encoded rumors (MarshalJSON and UnmarshalJSON of commons/types/rumor.go).
use disgo.Prelude.{◌≡◌, IsExact, float_int64_self}
use disgo.Types.Errors.{ok}
use disgo.Types.Json.{as_map, must_string, must_number, fields}
use disgo.Types.Rumor.{Rumor, marshal, from_json}

-- A rumor whose time fits a float64 is decoded from its JSON unchanged.
pub from_json-marshal_rumor : (r : Rumor) → IsExact r.time → from_json (marshal r) ≡ ok r
unfolding from_json marshal as_map must_string must_number
from_json-marshal_rumor r h = simp fields (simp (float_int64_self r.time h))
