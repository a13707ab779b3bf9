-- ===== src/Dapos/Worker.antt =====
-- gossipWorker and doWork of dapos/dapos_handshake.go: what one message of gossipChan, and one of
-- timoutChan, does.
pub mod Queueing
pub mod Quorum
use disgo.Prelude.{
  ℕ, ◌+◌, ◌*◌, Bool, true, false, not, Option, none, some, List, [], ◌∷◌, ◌++◌, ℤ, pos, ◌+ℤ◌, ltb_ℤ,
  leb_ℤ, sub64, add64, mul64, ltb, ◌==◌, length, if◌then◌else◌,
}
use disgo.Prelude.Text.{Bytes}
use disgo.Crypto.{External}
use disgo.Types.Errors.{Error, Result, ok, err, panic, ◌>>=◌}
use disgo.Types.Constants.{
  status_text, gossiping_timed_out, could_not_reach_consensus, receipt_not_found,
  transaction_time_out, tx_receive_timeout, gossip_timeout,
}
use disgo.Types.Json.{Json}
use disgo.Types.Rumor.{Rumor}
use disgo.Types.Rumor.TimeDelta.{validate_time_delta}
use disgo.Types.Receipt.{Receipt, new_receipt}
use disgo.Types.Gossip.{Gossip}
use disgo.Types.Node.{Node}
use disgo.Types.Transaction.{Transaction}
use disgo.Store.{Stores}
use disgo.Store.Records.{cache_receipt, cache_gossip, to_receipt_from_cache}
use disgo.Dapos.Run.{State}
use disgo.Dapos.Dvm.{Dvm}
use disgo.Dapos.Execute.{execute_transaction}
use disgo.Dapos.Peers.{Delegate, Reply, Moment, peer_gossip}
use disgo.Dapos.Gossip.{
  GossipQueue, GossipState, has_quorum, update_receipt_status, get_random_delegate,
}

-- "Gossip timeout?": the answer, and the rumors as it leaves them, sorted by their times.
unfoldable pub timely : ℤ → List Rumor → Result (Bool × List Rumor)
timely now rumors =
    if ltb 1 (length rumors) then validate_time_delta now rumors else ok (true, rumors)

-- After how many nanoseconds, as an int64, the queued transaction is worked on.
unfoldable pub wait : ℤ → Transaction → ℕ → ℤ
wait now t delegates =
    let delta = sub64 t.time now in
    let timeout = mul64 (pos (gossip_timeout * delegates + tx_receive_timeout)) (pos 1000000) in
    if ltb_ℤ (pos 0) delta then add64 (mul64 (pos 1000000) delta) timeout else timeout

module _ (s : Stores) (q : GossipQueue) (x : External) (me : Delegate)
    (remote : Node → Json → Reply) (now : Moment) where
  -- Two thirds are there: into the queue, with a timer, unless it is there already.
  unfoldable pub enqueue : Bool → Gossip → ℕ → GossipState s q → GossipState s q
  enqueue true gossip delegates st = st
  enqueue false gossip delegates st = record st {
    queue = q.push st.queue gossip;
    timers = st.timers ++ wait now.millis gossip.transaction delegates ∷ [];
  }

  called : Gossip → GossipState s q → Result Gossip × s.Cache → Result (GossipState s q)
  called gossip st (ok g, c) = ok (record st { cache = c })
  called gossip st (err e, c) = ok (record st { cache = c; chan = st.chan ++ gossip ∷ [] })
  called gossip st (panic, c) = panic

  -- With the delegate that was chosen.
  unfoldable pub rumor_with : Option Node → Gossip → GossipState s q → Result (GossipState s q)
  unfolding called
  rumor_with none gossip st = do
    c ←
        update_receipt_status s gossip.transaction.hash (status_text could_not_reach_consensus)
          (cache_gossip s gossip st.cache)
    ok (record st { cache = c })
  rumor_with (some node) gossip st =
      called gossip st (peer_gossip s x me remote now node gossip st.cache)

  unfoldable pub spread : (ℕ → ℕ) → Gossip → List Node → GossipState s q → Result (GossipState s q)
  spread intn gossip delegates st =
      if length gossip.rumors == length delegates
      then ok st
      else (get_random_delegate s me now intn gossip delegates st.cache >>= λ node.
          rumor_with node gossip st)

  -- With the answer of "Gossip timeout?", and whether two thirds are there.
  unfoldable pub decide :
      Bool → Bool → (ℕ → ℕ) → Gossip → List Node → GossipState s q → Result (GossipState s q)
  decide false quorum intn gossip delegates st = do
    c ← update_receipt_status s gossip.transaction.hash (status_text gossiping_timed_out) st.cache
    ok (record st { cache = c })
  decide true true intn gossip delegates st =
      ok (enqueue (q.exists st.queue gossip.transaction.hash) gossip (length delegates) st)
  decide true false intn gossip delegates st = spread intn gossip delegates st

  -- gossipWorker, for one message. The rumors of the message stay sorted.
  unfoldable pub gossip_worker :
      (ℕ → ℕ) → Gossip → List Node → GossipState s q → Result (GossipState s q)
  gossip_worker intn gossip delegates st = do
    (on_time, rumors) ← timely now.millis gossip.rumors
    let g : Gossip = record gossip { rumors = rumors }
    decide on_time (has_quorum (length rumors) (length delegates)) intn g delegates st

-- `gossip.Rumors[0].Time - gossip.Transaction.Time`
unfoldable pub delay : Gossip → Result ℤ
delay g = elim g.rumors [ [] ↦ panic | r ∷ rs ↦ ok (sub64 r.time g.transaction.time) ]

-- The database with the state of the gossip's part.
pub record NodeState (s : Stores) (q : GossipQueue) : Type 0 where
  pub db : s.Db
  pub gossip : GossipState s q

module _ (s : Stores) (q : GossipQueue) (x : External) (v : Dvm s) (is_bookkeeper : Bool)
    (now : Moment) where
  unfoldable pub with_cache : NodeState s q → s.Cache → NodeState s q
  with_cache st c = record st { gossip = record st.gossip { cache = c } }

  unfoldable pub executed : NodeState s q → State s → NodeState s q
  unfolding with_cache
  executed st e = with_cache (record st { db = e.db }) e.cache

  -- The execution, of a receipt that the cache holds by pointer.
  unfoldable pub run : Gossip → Receipt → NodeState s q → Result (NodeState s q)
  unfolding with_cache executed
  run g receipt st =
      let receipt' : Receipt = record receipt { created = now.nanos } in
      let c : s.Cache = cache_receipt s receipt' st.gossip.cache in
      if is_bookkeeper
      then (execute_transaction s x v now.nanos now.millis g.transaction receipt' g
            (record { db = st.db; cache = c })
          >>= λ e. ok (executed st e))
      else ok (with_cache st c)

  -- With whether the first rumor came too late.
  unfoldable pub timed : Gossip → Receipt → Bool → NodeState s q → Result (NodeState s q)
  unfolding with_cache run
  timed g receipt true st = ok (
      with_cache st (
        cache_receipt s
          (record (new_receipt g.transaction.hash now.nanos) {
            status = status_text transaction_time_out;
          })
          st.gossip.cache))
  timed g receipt false st = run g receipt st

  unfoldable pub work_on : Gossip → Result Receipt → NodeState s q → Result (NodeState s q)
  unfolding with_cache
  work_on g (ok receipt) st = do d ← delay g; timed g receipt (leb_ℤ (pos tx_receive_timeout) d) st
  work_on g (err e) st = ok (
      with_cache st (
        cache_receipt s
          (record (new_receipt g.transaction.hash now.nanos) {
            status = status_text receipt_not_found;
          })
          st.gossip.cache))
  work_on g panic st = panic

  -- doWork
  unfoldable pub do_work : NodeState s q → Result (NodeState s q)
  unfolding work_on
  do_work st = elim (q.has_available st.gossip.queue) [
    | true ↦ q.pop st.gossip.queue >>= λ p.
        work_on p.0 (to_receipt_from_cache s st.gossip.cache p.0.transaction.hash)
          (record st { gossip = record st.gossip { queue = p.1 } })
    | false ↦ ok st
  ]
