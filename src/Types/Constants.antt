-- ===== src/Types/Constants.antt =====
-- commons/types/constants.go and the lengths of commons/crypto/crypto.go. Times are milliseconds.
use disgo.Prelude.{ℕ}
use disgo.Prelude.Text.{Bytes, codes}

abbrev pub tx_receive_timeout : ℕ
tx_receive_timeout = 3000

abbrev pub gossip_timeout : ℕ
gossip_timeout = 1000

-- 3 minutes
abbrev pub tx_future_limit : ℕ
tx_future_limit = 180000

abbrev pub type_transfer_tokens : ℕ
type_transfer_tokens = 0

abbrev pub type_deploy_smart_contract : ℕ
type_deploy_smart_contract = 1

abbrev pub type_execute_smart_contract : ℕ
type_execute_smart_contract = 2

abbrev pub address_length : ℕ
address_length = 20

abbrev pub hash_length : ℕ
hash_length = 32

abbrev pub signature_length : ℕ
signature_length = 65

-- The texts of the statuses, told apart as strings are.
pub data Status : Type 0 where
  received pending ok not_found receipt_not_found transaction_time_out : Status
  invalid_transaction insufficient_tokens duplicate_transaction not_delegate : Status
  already_processing_transaction gossiping_timed_out json_parse_error internal_error : Status
  unavailable_feature node_unavailable could_not_reach_consensus : Status

unfoldable pub status_text : Status → Bytes
status_text received = codes "Received"
status_text pending = codes "Pending"
status_text ok = codes "Ok"
status_text not_found = codes "NotFound"
status_text receipt_not_found = codes "StatusReceiptNotFound"
status_text transaction_time_out = codes "StatusTransactionTimeOut"
status_text invalid_transaction = codes "InvalidTransaction"
status_text insufficient_tokens = codes "InsufficientTokens"
status_text duplicate_transaction = codes "DuplicateTransaction"
status_text not_delegate = codes "StatusNotDelegate"
status_text already_processing_transaction = codes "StatusAlreadyProcessingTransaction"
status_text gossiping_timed_out = codes "StatusGossipingTimedOut"
status_text json_parse_error = codes "StatusJsonParseError"
status_text internal_error = codes "InternalError"
status_text unavailable_feature = codes "UnavailableFeature"
status_text node_unavailable = codes "NodeUnavailable"
status_text could_not_reach_consensus = codes "CouldNotReachConsensus"
