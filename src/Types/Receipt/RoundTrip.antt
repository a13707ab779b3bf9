-- ===== src/Types/Receipt/RoundTrip.antt =====
-- Decoding of encoded receipts (MarshalJSON and UnmarshalJSON of commons/types/receipt.go).
use disgo.Prelude.{◌≡◌, arith, some}
use disgo.Crypto.{External}
use disgo.Types.Errors.{ok}
use disgo.Types.Json.{as_map, must_string, fields, AreExact, float_items_self}
use disgo.Types.Receipt.{Receipt, marshal, from_json, unmarshal_lenient, empty}

module _ (x : External) where
  -- A receipt whose time is read back from its text, and the numbers of whose result fit a float64,
  -- is decoded from its JSON unchanged.
  pub from_json-marshal_receipt :
      (r : Receipt)
      → AreExact r.contract_result
      → x.parse_time (x.format_time r.created) ≡ some r.created
      → from_json x (marshal x r) ≡ ok r
  unfolding from_json marshal as_map must_string
  from_json-marshal_receipt r e h =
      simp (fields, h) (ground (arith, float_items_self r.contract_result e))

  -- So is one whose errors are dropped, as inside a transaction.
  pub unmarshal_lenient-marshal :
      (r : Receipt)
      → AreExact r.contract_result
      → x.parse_time (x.format_time r.created) ≡ some r.created
      → unmarshal_lenient x empty (marshal x r) ≡ ok r
  unfolding unmarshal_lenient marshal as_map must_string
  unmarshal_lenient-marshal r e h =
      simp (fields, h) (ground (arith, float_items_self r.contract_result e))
