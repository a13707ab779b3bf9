-- ===== src/Types/Page/RoundTrip.antt =====
-- Decoding of encoded pages (MarshalJSON and UnmarshalJSON of commons/types/page.go).
use disgo.Prelude.{◌≡◌, some, IsExact, float_int64_self}
use disgo.Crypto.{External}
use disgo.Types.Errors.{ok}
use disgo.Types.Json.{as_map, must_string, must_number, fields}
use disgo.Types.Account.{time_or}
use disgo.Types.Page.{Page, json_fields, marshal, from_json}

-- A page whose numbers fit a float64 and whose time is read back from its text is decoded unchanged.
pub from_json-marshal_page :
    (x : External) (p : Page)
    → IsExact p.number
    → IsExact p.bw_used
    → x.parse_time (x.format_time p.created) ≡ some p.created
    → from_json x (marshal x p) ≡ ok p
unfolding from_json marshal as_map json_fields must_string must_number time_or
from_json-marshal_page x p n b c =
    simp (fields, float_int64_self p.number n, float_int64_self p.bw_used b, c)
