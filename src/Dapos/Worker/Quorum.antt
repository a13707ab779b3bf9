-- ===== src/Dapos/Worker/Quorum.antt =====
-- When gossipWorker of dapos/dapos_handshake.go queues a transaction, and when doWork executes one.
use disgo.Prelude.{
  ℕ, ◌≤◌, ◌≡◌, refl, sym, ap, Bool, true, false, ◌⊎◌, inl, inr, List, ℤ, pos, leb_ℤ, length,
  Bool-cases, All,
}
use disgo.Crypto.{External}
use disgo.Types.Errors.{Result, ok, err, panic, >>=-eq-ok, ok-injective}
use disgo.Types.Constants.{tx_receive_timeout}
use disgo.Types.Json.{Json}
use disgo.Types.Rumor.{Rumor}
use disgo.Types.Rumor.TimeDelta.{
  validate_time_delta, IsInstant, IsFresh, validate_time_delta-IsFresh,
}
use disgo.Types.Receipt.{Receipt}
use disgo.Types.Gossip.{Gossip}
use disgo.Types.Node.{Node}
use disgo.Store.{Stores}
use disgo.Store.Records.{cache_receipt, to_receipt_from_cache}
use disgo.Dapos.Run.{State}
use disgo.Dapos.Dvm.{Dvm}
use disgo.Dapos.Execute.{execute_transaction}
use disgo.Dapos.Peers.{Delegate, Reply, Moment}
use disgo.Dapos.Gossip.{GossipQueue, GossipState}
use disgo.Dapos.Worker.{
  gossip_worker, NodeState, with_cache, executed, delay, run, timed, work_on, do_work,
}
use disgo.Dapos.Worker.Queueing.{IsQueued, gossip_worker-cases}

module _ (s : Stores) (q : GossipQueue) (x : External) (me : Delegate)
    (remote : Node → Json → Reply) (now : Moment) where
  tested-IsFresh :
      (gossip : Gossip) (rumors : List Rumor)
      → IsInstant now.millis
      → All (λ r. IsInstant r.time) gossip.rumors
      → (length gossip.rumors ≤ 1)
        ⊎ (validate_time_delta now.millis gossip.rumors ≡ ok (true, rumors))
      → (length gossip.rumors ≤ 1) ⊎ All (IsFresh now.millis (length gossip.rumors)) gossip.rumors
  tested-IsFresh gossip rumors now_is times_are (inl one) = inl one
  tested-IsFresh gossip rumors now_is times_are (inr e) =
      inr (validate_time_delta-IsFresh now.millis gossip.rumors rumors now_is times_are e)

  -- A message whose times are between 1970 and the year 146 million leaves the queue of transactions
  -- and its timers as they are, or it queues its gossip: then there are at least two thirds as many
  -- rumors as delegates, the transaction was not in the queue, and either there is at most one rumor,
  -- of any age, or each is no older than one timeout for every rumor there is.
  pub gossip_worker-IsQueued :
      (intn : ℕ → ℕ) (gossip : Gossip) (delegates : List Node) (st st' : GossipState s q)
      → IsInstant now.millis
      → All (λ r. IsInstant r.time) gossip.rumors
      → gossip_worker s q x me remote now intn gossip delegates st ≡ ok st'
      → ((st'.queue ≡ st.queue) × (st'.timers ≡ st.timers))
        ⊎ (IsQueued s q x me remote now gossip delegates st st'
            × ((length gossip.rumors ≤ 1)
                ⊎ All (IsFresh now.millis (length gossip.rumors)) gossip.rumors))
  gossip_worker-IsQueued intn gossip delegates st st' now_is times_are h =
      elim (gossip_worker-cases s q x me remote now intn gossip delegates st st' h) [
        | inl same ↦ inl same
        | inr queued ↦
            inr (queued, tested-IsFresh gossip queued.rumors now_is times_are queued.tested)
      ]

module _ (s : Stores) (q : GossipQueue) (x : External) (v : Dvm s) (now : Moment) where
  -- What lets a bookkeeper execute: a gossip of the queue with a receipt in the cache, whose first
  -- rumor was made in time after its transaction; and what the execution then leaves.
  pub record IsExecuted (st st' : NodeState s q) : Type 0 where
    pub gossip : Gossip
    pub rest : q.Queue
    pub popped : q.pop st.gossip.queue ≡ ok (gossip, rest)
    pub receipt : Receipt
    pub cached : to_receipt_from_cache s st.gossip.cache gossip.transaction.hash ≡ ok receipt
    pub waited : ℤ
    pub first : delay gossip ≡ ok waited
    pub in_time : leb_ℤ (pos tx_receive_timeout) waited ≡ false
    pub result : State s
    pub ran :
        execute_transaction s x v now.nanos now.millis gossip.transaction
          (record receipt { created = now.nanos })
          gossip
          (record {
            db = st.db;
            cache = cache_receipt s (record receipt { created = now.nanos }) st.gossip.cache;
          })
        ≡ ok result
    pub database : st'.db ≡ result.db

  abbrev Settled : Bool → NodeState s q → NodeState s q → Type 0
  Settled b st st' = (st'.db ≡ st.db) ⊎ ((b ≡ true) × IsExecuted st st')

  -- The state without the gossip that was taken from the queue.
  abbrev left : NodeState s q → q.Queue → NodeState s q
  left st rest = record st { gossip = record st.gossip { queue = rest } }

  run-Settled :
      (b : Bool) (st st' : NodeState s q) (g : Gossip) (rest : q.Queue) (receipt : Receipt)
      (waited : ℤ)
      → q.pop st.gossip.queue ≡ ok (g, rest)
      → to_receipt_from_cache s st.gossip.cache g.transaction.hash ≡ ok receipt
      → delay g ≡ ok waited
      → leb_ℤ (pos tx_receive_timeout) waited ≡ false
      → run s q x v b now g receipt (left st rest) ≡ ok st'
      → Settled b st st'
  unfolding run executed with_cache
  run-Settled false st st' g rest receipt waited popped cached first in_time h =
      inl (ap (λ (t : NodeState s q). t.db) (sym (ok-injective h)))
  run-Settled true st st' g rest receipt waited popped cached first in_time h =
      let (result, ran, h₁) =
        >>=-eq-ok
          (execute_transaction s x v now.nanos now.millis g.transaction
            (record receipt { created = now.nanos }) g
            (record {
              db = st.db;
              cache = cache_receipt s (record receipt { created = now.nanos }) st.gossip.cache;
            }))
          _ h in
      inr (
        refl,
        record {
          gossip = g;
          rest = rest;
          popped = popped;
          receipt = receipt;
          cached = cached;
          waited = waited;
          first = first;
          in_time = in_time;
          result = result;
          ran = ran;
          database = ap (λ (t : NodeState s q). t.db) (sym (ok-injective h₁));
        },
      )

  timed-Settled :
      (b : Bool) (st st' : NodeState s q) (g : Gossip) (rest : q.Queue) (receipt : Receipt)
      (waited : ℤ) (late : Bool)
      → q.pop st.gossip.queue ≡ ok (g, rest)
      → to_receipt_from_cache s st.gossip.cache g.transaction.hash ≡ ok receipt
      → delay g ≡ ok waited
      → leb_ℤ (pos tx_receive_timeout) waited ≡ late
      → timed s q x v b now g receipt late (left st rest) ≡ ok st'
      → Settled b st st'
  unfolding timed with_cache
  timed-Settled b st st' g rest receipt waited true popped cached first e h =
      inl (ap (λ (t : NodeState s q). t.db) (sym (ok-injective h)))
  timed-Settled b st st' g rest receipt waited false popped cached first e h =
      run-Settled b st st' g rest receipt waited popped cached first e h

  work_on-Settled :
      (b : Bool) (st st' : NodeState s q) (g : Gossip) (rest : q.Queue) (m : Result Receipt)
      → q.pop st.gossip.queue ≡ ok (g, rest)
      → to_receipt_from_cache s st.gossip.cache g.transaction.hash ≡ m
      → work_on s q x v b now g m (left st rest) ≡ ok st'
      → Settled b st st'
  unfolding work_on with_cache
  work_on-Settled b st st' g rest (ok receipt) popped cached h =
      let (d, first, h₁) = >>=-eq-ok (delay g) _ h in
      timed-Settled b st st' g rest receipt d _ popped cached first refl h₁
  work_on-Settled b st st' g rest (err e) popped cached h =
      inl (ap (λ (t : NodeState s q). t.db) (sym (ok-injective h)))
  work_on-Settled b st st' g rest panic popped cached h = cc

  -- Work on the queue leaves the database as it is, or this node is a bookkeeper, and it is the
  -- database after executing the transaction that was taken from the queue, whose receipt is in the
  -- cache and whose first rumor came within the limit after it.
  pub do_work-IsExecuted :
      (b : Bool) (st st' : NodeState s q)
      → do_work s q x v b now st ≡ ok st'
      → (st'.db ≡ st.db) ⊎ ((b ≡ true) × IsExecuted st st')
  unfolding do_work
  do_work-IsExecuted b st st' h = elim (Bool-cases (q.has_available st.gossip.queue)) [
    | inl e ↦
        let (p, popped, h₁) = >>=-eq-ok (q.pop st.gossip.queue) _ (rw (e, do_work) at h) in
        work_on-Settled b st st' p.0 p.1 _ popped refl h₁
    | inr e ↦ inl (ap (λ (t : NodeState s q). t.db) (sym (ok-injective (rw (e, do_work) at h))))
  ]
