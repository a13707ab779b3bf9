-- ===== src/Dapos/Execute.antt =====
-- executeTransaction and processDVMResult of dapos/dapos_handshake.go.
pub mod Outcome
pub mod Transfer
pub mod Success
use disgo.Prelude.{
  ℕ, Bool, true, false, not, Option, none, some, List, [], ◌∷◌, ℤ, pos, ltb_ℤ, add64, sub64,
  if◌then◌else◌, ◌==◌,
}
use disgo.Prelude.Text.{Bytes, codes, ◌=ₛ◌, hex_encode, hex_decode_loose, is_blank}
use disgo.Crypto.{External}
use disgo.Types.Constants.{
  Status, status_text, insufficient_tokens, invalid_transaction, type_transfer_tokens,
  type_deploy_smart_contract, type_execute_smart_contract,
}
use disgo.Types.Constants
use disgo.Types.Errors.{Error, Result, ok, err, panic, key_not_found, conflict}
use disgo.Types.Json.{Items}
use disgo.Types.Receipt.{Receipt, with_error}
use disgo.Types.Account.{Account, int64_of}
use disgo.Types.Account
use disgo.Types.Gossip.{Gossip}
use disgo.Types.Transaction.{Transaction}
use disgo.Store.{Value, Stores}
use disgo.Store.Records.{
  cache_receipt, persist_account, to_account_by_address, set_receipt, set_gossip, save_receipt,
}
use disgo.Store.Records.Transactions.{key, persist_transaction, to_transaction_by_address}
use disgo.Dapos.Run.{State, Run, next, stop, crash, ◌>>=◌, or_stop, finish}
use disgo.Dapos.Dvm.{DvmResult, Dvm}

-- processDVMResult: the receipt with the values that the contract returned, or the error.
unfoldable pub process_dvm_result : {s : Stores} → Dvm s → DvmResult → Receipt → Result Receipt
process_dvm_result v r receipt = elim r.contract_method_exec_error [
  | some e ↦ err e
  | none ↦
      if is_blank r.abi
      then ok receipt
      else let abi : Bytes = hex_decode_loose r.abi in
        elim (v.abi_error abi) [
          | some e ↦ err e
          | none ↦
              if not (v.has_method abi r.contract_method)
              then ok receipt
              else elim r.contract_method_exec_result [
                | [] ↦ ok receipt
                | b ∷ bytes ↦ elim (v.unpack_values abi r.contract_method (b ∷ bytes)) [
                  | ok values ↦ ok (record receipt { contract_result = values })
                  | err e ↦ err e
                  | panic ↦ panic
                ]
              ]
        ]
]

-- What the type's part of an execution hands on: the database as the virtual machine left it, the
-- transaction of the database, and the objects that are to be saved.
pub record Work (s : Stores) : Type 0 where
  pub state : State s
  pub txn : s.Txn
  pub transaction : Transaction
  pub from_account : Account
  pub to_account : Account
  pub receipt : Receipt

-- `Find/create`: an account that is not there starts empty at the time `now`.
abbrev pub found_or_new : Bytes → ℤ → Result Account → Result Account
found_or_new address now (ok a) = ok a
found_or_new address now (err key_not_found) =
    ok (record Account.empty { address = address; balance = some (pos 0); created = now })
found_or_new address now (err e) = err e
found_or_new address now panic = panic

module _ (s : Stores) (x : External) (v : Dvm s) where
  -- The failed step's receipt goes into the cache, and the handler returns.
  abbrev pub fail : State s → Receipt → Error → State s
  fail st receipt e = record st { cache = cache_receipt s (with_error receipt e) st.cache }

  -- SetStatusWithNewTransaction and SetInternalErrorWithNewTransaction of a receipt with its new
  -- status. The cache holds the receipt by pointer, and so sees the status too.
  abbrev pub save_status : State s → Receipt → State s
  save_status st receipt = record {
    db = save_receipt s x receipt st.db;
    cache = cache_receipt s receipt st.cache;
  }

  -- Sufficient tokens? Then the amount changes hands, as int64.
  unfoldable pub transfer : Work s → Run (State s) (Work s)
  transfer w = do
    from ← or_stop (int64_of w.from_account.balance) (λ _. w.state)
    to ← or_stop (int64_of w.to_account.balance) (λ _. w.state)
    elim (ltb_ℤ from w.transaction.value) [
      | true ↦
          stop (save_status w.state (record w.receipt { status = status_text insufficient_tokens }))
      | false ↦ next (record w {
        from_account = record w.from_account { balance = some (sub64 from w.transaction.value) };
        to_account = record w.to_account { balance = some (add64 to w.transaction.value) };
      })
    ]

  -- `stateObject.Account().Persist(txn)` with its error dropped: what could be set is set.
  name_entry : Account → s.Txn → Result s.Txn → s.Txn
  name_entry a txn (ok done) = done
  name_entry a txn _ = txn

  account_entry : Account → s.Txn → Result s.Txn → s.Txn
  unfolding name_entry
  account_entry a txn (ok first) =
      name_entry a first
        (s.txn_set first (Account.name_key a.name) (Value.text (Account.key a.address)))
  account_entry a txn _ = txn

  persist_loosely : Account → s.Txn → Run (State s) s.Txn
  unfolding account_entry
  persist_loosely a txn = elim (Account.marshal x a) [
    | ok j ↦ next (account_entry a txn (s.txn_set txn (Account.key a.address) (Value.json j)))
    | _ ↦ crash
  ]

  -- The loop over the state objects: the first one with the contract's address gets the hash.
  update_contract : Bytes → Bytes → List Account → s.Txn → Run (State s) s.Txn
  unfolding persist_loosely
  update_contract address hash [] txn = next txn
  update_contract address hash (a ∷ rest) txn =
      let later = update_contract address hash rest txn in
      if a.address =ₛ address
      then persist_loosely (record a { transaction_hash = hash }) txn
      else later

  abbrev failed_call : Work s → State s → DvmResult × Option Error × s.Db → Run (State s) DvmResult
  failed_call w st (r, none, db) = next r
  failed_call w st (r, some e, db) = stop (fail st w.receipt e)

  unfoldable pub deploy : Work s → Run (State s) (Work s)
  unfolding update_contract
  deploy w = do
    let t : Transaction = record w.transaction { abi = hex_encode w.transaction.abi }
    let call = v.deploy t w.state.db
    let st : State s = record w.state { db = call.2 }
    r ← failed_call w st call
    receipt ← or_stop (process_dvm_result v r w.receipt) (fail st w.receipt)
    let address = hex_encode r.contract_address
    txn ← update_contract address t.hash r.state_objects w.txn
    next (record w {
      state = st;
      txn = txn;
      transaction = t;
      receipt = record receipt { contract_address = address };
    })

  -- An error of the call itself is only logged.
  unfoldable pub execute : ℤ → Work s → Run (State s) (Work s)
  execute now w = do
    contract ←
        or_stop (to_transaction_by_address s x now w.txn w.transaction.to) (fail w.state w.receipt)
    let with_abi : Transaction = record w.transaction { abi = contract.abi }
    params ← or_stop (v.converted_params with_abi) (fail w.state w.receipt)
    let t : Transaction = record with_abi { params = params }
    let call = v.execute t w.state.db
    let st : State s = record w.state { db = call.2 }
    receipt ← or_stop (process_dvm_result v call.0 w.receipt) (fail st w.receipt)
    next (record w {
      state = st;
      transaction = t;
      receipt = record receipt { contract_address = t.to };
    })

  -- `switch transaction.Type`
  unfoldable pub run_type : ℤ → Work s → Run (State s) (Work s)
  run_type now w =
      if w.transaction.type == type_transfer_tokens
      then transfer w
      else if w.transaction.type == type_deploy_smart_contract
      then deploy w
      else if w.transaction.type == type_execute_smart_contract
      then execute now w
      else stop
          (save_status w.state (record w.receipt { status = status_text invalid_transaction }))

  -- txn.Commit: a conflict means that another thread has committed the transaction.
  abbrev pub commit : State s → Receipt → Option Error × s.Db → State s
  commit st receipt (none, db) = record st { db = db }
  commit st receipt (some conflict, db) = record st { db = db }
  commit st receipt (some e, db) = fail (record st { db = db }) receipt e

  -- From `Save receipt` to the commit.
  unfoldable pub save_replies : Gossip → Receipt → s.Txn → Work s → Run (State s) (State s)
  save_replies gossip receipt txn₃ w = do
    let (cache₄, set₄) = set_receipt s x receipt txn₃ w.state.cache
    let st₄ : State s = record w.state { cache = cache₄ }
    txn₄ ← or_stop set₄ (fail st₄ receipt)
    let g : Gossip = record gossip { transaction = w.transaction }
    let (cache₅, set₅) = set_gossip s x g txn₄ cache₄
    let st₅ : State s = record w.state { cache = cache₅ }
    txn₅ ← or_stop set₅ (fail st₅ receipt)
    next (commit st₅ receipt (s.commit txn₅ w.state.db))

  -- From `Persist transaction` on.
  unfoldable pub save : ℤ → Gossip → Work s → Run (State s) (State s)
  save now gossip w = do
    txn₁ ← or_stop (persist_transaction s x w.transaction w.txn) (fail w.state w.receipt)
    txn₂ ←
        or_stop (persist_account s x (record w.from_account { updated = now }) txn₁)
          (fail w.state w.receipt)
    txn₃ ←
        or_stop (persist_account s x (record w.to_account { updated = now }) txn₂)
          (fail w.state w.receipt)
    save_replies gossip (record w.receipt { status = status_text Constants.ok }) txn₃ w

  -- executeTransaction. Times are nanoseconds; `millis` is the same instant in milliseconds.
  unfoldable pub steps : ℤ → ℤ → Transaction → Receipt → Gossip → State s → Run (State s) (State s)
  steps now millis t receipt gossip st = do
    let txn = s.new_transaction st.db
    from ←
        or_stop (found_or_new t.from now (to_account_by_address s x txn t.from)) (fail st receipt)
    to ←
        or_stop (found_or_new t.to now (to_account_by_address s x txn t.to))
          (λ e. save_status st (with_error receipt e))
    w ← run_type millis (record {
      state = st;
      txn = txn;
      transaction = t;
      from_account = from;
      to_account = to;
      receipt = receipt;
    })
    save now gossip w

  -- "Has this transaction already been processed?"
  unfoldable pub already : Result Value → State s → Result (State s) → Result (State s)
  already (ok value) st rest = ok st
  already _ st rest = rest

  unfoldable pub execute_transaction :
      ℤ → ℤ → Transaction → Receipt → Gossip → State s → Result (State s)
  unfolding steps already
  execute_transaction now millis t receipt gossip st =
      already (s.txn_get (s.new_transaction st.db) (key t.hash)) st
        (finish (steps now millis t receipt gossip st))
