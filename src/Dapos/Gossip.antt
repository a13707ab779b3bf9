-- ===== src/Dapos/Gossip.antt =====
-- startGossiping, gossipWorker, getRandomDelegate, updateReceiptStatus and doWork of
-- dapos/dapos_handshake.go: from a client's transaction to its execution.
pub mod Choice
pub mod Start
use disgo.Prelude.{
  ℕ, suc, ◌+◌, ◌*◌, Bool, true, false, not, ◌||◌, ◌&&◌, Option, none, some, List, [], ◌∷◌, ◌++◌, ℤ,
  pos, ltb_ℤ, leb_ℤ, sub64, ltb, leb, ◌==◌, length, get_elem?, if◌then◌else◌,
}
use disgo.Prelude.Text.{Bytes, codes, ◌=ₛ◌}
use disgo.Crypto.{External}
use disgo.Types.Errors.{Error, Result, ok, err, panic, ◌>>=◌, key_not_found}
use disgo.Types.Errors
use disgo.Types.Constants.{
  Status, status_text, invalid_transaction, transaction_time_out, duplicate_transaction,
  internal_error, already_processing_transaction, pending, gossiping_timed_out,
  could_not_reach_consensus, receipt_not_found, tx_receive_timeout, gossip_timeout,
}
use disgo.Types.Json.{Json}
use disgo.Types.Rumor.{Rumor, new_rumor}
use disgo.Types.Rumor.TimeDelta.{validate_time_delta}
use disgo.Types.Receipt.{Receipt, new_receipt}
use disgo.Types.Gossip.{Gossip, new_gossip, contains_rumor}
use disgo.Types.Node.{Node, is_available}
use disgo.Types.Transaction.{Transaction}
use disgo.Types.Transaction.Signing.{verify}
use disgo.Store.{Value, Stores}
use disgo.Store.Records.{cache_receipt, cache_gossip, have_sent, to_receipt_from_cache}
use disgo.Store.Records.Transactions.{key, to_transaction_from_cache}
use disgo.Dapos.Peers.{Delegate, Reply, Moment, own_rumor, cache_on_first_receive, peer_gossip}

-- commons/queue's GossipQueue as its users see it.
pub record GossipQueue : Type 1 where
  pub Queue : Type 0
  pub exists : Queue → Bytes → Bool
  pub push : Queue → Gossip → Queue
  pub pop : Queue → Result (Gossip × Queue)
  pub has_available : Queue → Bool

-- types.NewResponseWithStatus: a status, and the text that explains it.
pub data Reason : Type 0 where
  said : Bytes → Reason
  failed : Error → Reason

pub record Response : Type 0 where
  pub status : Status
  pub reason : Reason

-- What the gossip's part of the node keeps: the cache, the messages in gossipChan, the queue, and the
-- time, in nanoseconds from now, after which each started timer writes to timoutChan.
pub record GossipState (s : Stores) (q : GossipQueue) : Type 0 where
  pub cache : s.Cache
  pub chan : List Gossip
  pub queue : q.Queue
  pub timers : List ℤ

-- More than two thirds: `float32(len(rumors)) >= float32(len(delegateNodes))*2/3`. Up to 2 ^ 22
-- delegates the rounding to float32 does not change the answer.
unfoldable pub has_quorum : ℕ → ℕ → Bool
has_quorum rumors delegates = leb (2 * delegates) (3 * rumors)

module _ (s : Stores) (q : GossipQueue) (x : External) (me : Delegate)
    (remote : Node → Json → Reply) (now : Moment) where
  -- The last steps of startGossiping: our own rumor, the cache, the peers, gossipChan.
  unfoldable pub begin :
      Transaction → List Node → GossipState s q → Result (Response × GossipState s q)
  begin t delegates st = do
    r ← own_rumor (new_rumor x me.private_key me.address t.hash now.millis)
    let gossip : Gossip = record (new_gossip t) { rumors = r ∷ [] }
    c ← cache_on_first_receive s x me remote now gossip delegates st.cache
    ok (
      record { status = pending; reason = Reason.said (codes "Pending") },
      record st { cache = c; chan = st.chan ++ gossip ∷ [] },
    )

  unfoldable pub refuse : GossipState s q → Status → Reason → Result (Response × GossipState s q)
  refuse st status reason = ok (record { status = status; reason = reason }, st)

  -- "Are we already gossiping about this transaction?"
  unfoldable pub unless_cached :
      Result Transaction
      → Transaction
      → List Node
      → GossipState s q
      → Result (Response × GossipState s q)
  unfolding refuse
  unless_cached (ok u) t delegates st =
      refuse st already_processing_transaction
        (Reason.said (codes "Transaction is already being processed"))
  unless_cached (err e) t delegates st = begin t delegates st
  unless_cached panic t delegates st = panic

  -- "Duplicate transaction?", of what the database has under the transaction's key
  unfoldable pub unless_executed :
      Result Value → Transaction → List Node → GossipState s q → Result (Response × GossipState s q)
  unfolding refuse
  unless_executed (ok v) t delegates st =
      refuse st duplicate_transaction (Reason.said (codes "Duplicate transaction"))
  unless_executed (err key_not_found) t delegates st =
      unless_cached (to_transaction_from_cache s x st.cache t.hash) t delegates st
  unless_executed (err e) t delegates st = refuse st internal_error (Reason.failed e)
  unless_executed panic t delegates st = panic

  unfoldable pub unless_invalid :
      Result (Unit {0})
      → Transaction
      → List Node
      → s.Db
      → GossipState s q
      → Result (Response × GossipState s q)
  unfolding refuse
  unless_invalid (ok u) t delegates db st =
      if ltb_ℤ (pos tx_receive_timeout) (sub64 now.millis t.time)
      then refuse st transaction_time_out
          (Reason.said (codes "Transaction was received later than 3 second limit"))
      else unless_executed (s.txn_get (s.new_transaction db) (key t.hash)) t delegates st
  unless_invalid (err e) t delegates db st = refuse st invalid_transaction (Reason.failed e)
  unless_invalid panic t delegates db st = panic

  -- startGossiping
  unfoldable pub start_gossiping :
      Transaction → List Node → s.Db → GossipState s q → Result (Response × GossipState s q)
  unfolding unless_invalid
  start_gossiping t delegates db st = unless_invalid (verify x t) t delegates db st

  -- Temp_ProcessTransaction, which checks nothing and tells nobody.
  unfoldable pub temp_process_transaction :
      Transaction → GossipState s q → Result (Response × GossipState s q)
  temp_process_transaction t st = do
    let c = cache_receipt s (new_receipt t.hash now.nanos) st.cache
    r ← own_rumor (new_rumor x me.private_key me.address t.hash now.millis)
    let gossip : Gossip = record (new_gossip t) { rumors = r ∷ [] }
    ok (
      record { status = pending; reason = Reason.said (codes "Pending") },
      record st { cache = cache_gossip s gossip c; chan = st.chan ++ gossip ∷ [] },
    )

module _ (s : Stores) where
  with_status : Bytes → Result Receipt → s.Cache → Result s.Cache
  with_status status (ok r) c = ok (cache_receipt s (record r { status = status }) c)
  with_status status (err e) c = ok c
  with_status status panic c = panic

  -- updateReceiptStatus
  unfoldable pub update_receipt_status : Bytes → Bytes → s.Cache → Result s.Cache
  unfolding with_status
  update_receipt_status hash status c = with_status status (to_receipt_from_cache s c hash) c

module _ (s : Stores) (me : Delegate) (now : Moment) where
  -- The loop of getRandomDelegate: `if isThisAddress || haveSent || !node.IsAvailable() { continue }`
  unfoldable pub candidates : Bytes → List Node → s.Cache → Result (List Node)
  candidates hash [] c = ok []
  candidates hash (n ∷ nodes) c = do
    sent ← have_sent s c hash n.address
    rest ← candidates hash nodes c
    ok (
        if (n.address =ₛ me.this_node) || sent || not (is_available now.nanos n)
        then rest
        else n ∷ rest)

  -- getRandomDelegate, with `rand.Intn` as an argument
  unfoldable pub get_random_delegate : (ℕ → ℕ) → Gossip → List Node → s.Cache → Result (Option Node)
  get_random_delegate intn gossip delegates c = do
    nodes ← candidates gossip.transaction.hash delegates c
    ok (get_elem? nodes (intn (length nodes)))
