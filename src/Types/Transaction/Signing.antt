-- ===== src/Types/Transaction/Signing.antt =====
-- NewHash, NewSignature, Verify and the three constructors of commons/types/transaction.go.
use disgo.Prelude.{
  ◌*◌, ◌%◌, not, Option, none, some, ◌∷◌, ◌++◌, ℤ, pos, leb_ℤ, length, if◌then◌else◌, ◌==◌,
}
use disgo.Prelude.Text.{Bytes, ◌=ₛ◌, hex_decode, hex_encode, write_int64}
use disgo.Crypto.{External}
use disgo.Crypto
use disgo.Types.Constants.{
  address_length, hash_length, signature_length, type_transfer_tokens, type_deploy_smart_contract,
  type_execute_smart_contract,
}
use disgo.Types.Errors.{
  Error, Result, ok, err, ◌>>=◌, ◌>>◌, require, invalid_hash, invalid_from_address,
  invalid_signature, from_equals_to, invalid_to_address, value_not_positive, to_not_blank,
  invalid_code, invalid_abi, no_hash, undecodable_hash, undecodable_signature, no_public_key,
  address_mismatch, undecodable_from, undecodable_to, undecodable_code, undecodable_private_key,
  empty_abi, empty_code, empty_method,
}
use disgo.Types.Json.{Items}
use disgo.Types.Receipt.{is_empty}
use disgo.Types.Transaction.{Transaction, empty, check_time}

abbrev pub or_fail : Option Bytes → Error → Result Bytes
or_fail none e = err e
or_fail (some b) e = ok b

-- The lengths and the addresses, before the type is looked at.
unfoldable pub check_shape : Transaction → Result (Unit {0})
check_shape t = do
  require (length t.hash == hash_length * 2) invalid_hash
  require (length t.from == address_length * 2) invalid_from_address
  require (length t.signature == signature_length * 2) invalid_signature
  require (not (t.from =ₛ t.to)) from_equals_to

-- `switch this.Type`
unfoldable pub check_type : Transaction → Result (Unit {0})
check_type t =
    if t.type == type_transfer_tokens
    then (do
      require (length t.to == address_length * 2) invalid_to_address
      require (not (leb_ℤ t.value (pos 0))) value_not_positive)
    else if t.type == type_deploy_smart_contract
    then (do
      require (is_empty t.to) to_not_blank
      require (not (is_empty t.code)) invalid_code
      require (not (is_empty t.abi)) invalid_abi)
    else if t.type == type_execute_smart_contract
    then require (length t.to == address_length * 2) invalid_to_address
    else ok tt

abbrev pub hash_or_fail : Result Bytes → Result Bytes
hash_or_fail (ok h) = ok h
hash_or_fail _ = err no_hash

module _ (x : External) where
  -- NewHash: type, from, to, value, code, method and time; neither the abi nor the params.
  unfoldable pub new_hash : Transaction → Result Bytes
  new_hash t = do
    from ← or_fail (hex_decode t.from) undecodable_from
    to ← or_fail (hex_decode t.to) undecodable_to
    code ← or_fail (hex_decode t.code) undecodable_code
    ok (
        hex_encode (
          Crypto.new_hash x (
            t.type % 256
            ∷ (from
                ++ (to ++ (write_int64 t.value ++ (code ++ (t.method ++ write_int64 t.time))))))))

  -- NewSignature
  unfoldable pub new_signature : Transaction → Bytes → Result Bytes
  new_signature t private_key = do
    hash ← or_fail (hex_decode t.hash) undecodable_hash
    key ← or_fail (hex_decode private_key) undecodable_private_key
    signature ← or_fail (Crypto.new_signature x key hash) invalid_signature
    ok (hex_encode signature)

  -- The hash is the transaction's, and the signature one of the sender over it.
  unfoldable pub check_signature : Transaction → Result (Unit {0})
  check_signature t = do
    hash ← hash_or_fail (new_hash t)
    require (t.hash =ₛ hash) invalid_hash
    hash_bytes ← or_fail (hex_decode t.hash) undecodable_hash
    signature_bytes ← or_fail (hex_decode t.signature) undecodable_signature
    public_key ← or_fail (Crypto.to_public_key x hash_bytes signature_bytes) no_public_key
    require (hex_encode (Crypto.to_address x public_key) =ₛ t.from) address_mismatch
    require (Crypto.verify_signature x public_key hash_bytes signature_bytes) invalid_signature

  unfoldable pub verify : Transaction → Result (Unit {0})
  verify t = do check_shape t; check_type t; check_signature t

  -- The common end of the constructors: time, hash, signature.
  unfoldable pub sign : Bytes → ℤ → Transaction → Result Transaction
  sign private_key now t = do
    time ← check_time now t.time
    hash ← new_hash t
    signature ← new_signature (record t { hash = hash }) private_key
    ok (record t { hash = hash; signature = signature })

  -- NewTransferTokensTransaction, whose argument `hertz` is not used
  unfoldable pub new_transfer_tokens_transaction :
      Bytes → Bytes → Bytes → ℤ → ℤ → ℤ → ℤ → Result Transaction
  unfolding sign
  new_transfer_tokens_transaction private_key from to value hertz time now =
      sign private_key now (record empty {
        type = type_transfer_tokens;
        from = from;
        to = to;
        value = value;
        time = time;
      })

  -- NewDeployContractTransaction
  unfoldable pub new_deploy_contract_transaction :
      Bytes → Bytes → Bytes → Bytes → ℤ → ℤ → Result Transaction
  unfolding sign
  new_deploy_contract_transaction private_key from code abi time now = do
    require (not (is_empty abi)) empty_abi
    require (not (is_empty code)) empty_code
    sign private_key now (record empty {
      type = type_deploy_smart_contract;
      from = from;
      code = code;
      abi = abi;
      time = time;
    })

  -- NewExecuteContractTransaction
  unfoldable pub new_execute_contract_transaction :
      Bytes → Bytes → Bytes → Bytes → Items → ℤ → ℤ → Result Transaction
  unfolding sign
  new_execute_contract_transaction private_key from to method params time now = do
    require (not (is_empty method)) empty_method
    sign private_key now (record empty {
      type = type_execute_smart_contract;
      from = from;
      to = to;
      method = method;
      params = params;
      time = time;
    })
