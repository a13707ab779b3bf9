-- ===== src/Dapos/Steps/Tracked.antt =====
-- What holds of the queue in all runs of a delegate (dapos/dapos_handshake.go with
-- commons/queue/gossip_queue.go).
use disgo.Prelude.{◌≡◌, refl, sym, ap, subst, Bool, true, false, Bool-cases, inl, inr, List}
use disgo.Crypto.{External}
use disgo.Types.Errors.{Result, ok, err, panic, >>=-eq-ok, ok-injective}
use disgo.Types.Gossip.{Gossip}
use disgo.Types.Json.{Json}
use disgo.Types.Node.{Node}
use disgo.Types.Receipt.{Receipt}
use disgo.Types.Transaction.{Transaction}
use disgo.Store.{Stores}
use disgo.Store.Records.{to_receipt_from_cache, cache_receipt}
use disgo.Dapos.Execute.{execute_transaction}
use disgo.Queue.{gossip_queue, exists, pop, has_available, exists_in}
use disgo.Queue.Tracking.{IsTracked, push-IsTracked, pop-IsTracked}
use disgo.Dapos.Dvm.{Dvm}
use disgo.Dapos.Peers.{Delegate, Reply, Moment}
use disgo.Dapos.Gossip.{GossipState, Response}
use disgo.Dapos.Gossip.Start.{start_gossiping-IsNew}
use disgo.Dapos.Worker.{do_work, work_on, timed, run, delay, executed, with_cache}
use disgo.Dapos.Worker.Queueing.{gossip_worker-cases}
use disgo.Dapos.Api.{new_transaction}
use disgo.Dapos.Steps.{Running, Step, Reachable}

module _ (s : Stores) (x : External) (v : Dvm s) (me : Delegate)
    (remote : Node → Json → Reply) where
  abbrev Kept : Running s x v me remote → Running s x v me remote → Type 0
  Kept st st' = st'.gossip.queue ≡ st.gossip.queue

  run-Kept :
      (b : Bool) (now : Moment) (g : Gossip) (r : Receipt) (st st' : Running s x v me remote)
      → run s gossip_queue x v b now g r st ≡ ok st'
      → Kept st st'
  unfolding run executed with_cache
  run-Kept false now g r st st' h =
      ap (λ (t : Running s x v me remote). t.gossip.queue) (sym (ok-injective h))
  run-Kept true now g r st st' h =
      let (e, _, h₁) =
        >>=-eq-ok
          (execute_transaction s x v now.nanos now.millis g.transaction
            (record r { created = now.nanos }) g
            (record {
              db = st.db;
              cache = cache_receipt s (record r { created = now.nanos }) st.gossip.cache;
            }))
          _ h in
      ap (λ (t : Running s x v me remote). t.gossip.queue) (sym (ok-injective h₁))

  timed-Kept :
      (late b : Bool) (now : Moment) (g : Gossip) (r : Receipt) (st st' : Running s x v me remote)
      → timed s gossip_queue x v b now g r late st ≡ ok st'
      → Kept st st'
  unfolding timed with_cache
  timed-Kept true b now g r st st' h =
      ap (λ (t : Running s x v me remote). t.gossip.queue) (sym (ok-injective h))
  timed-Kept false b now g r st st' h = run-Kept b now g r st st' h

  work_on-Kept :
      (b : Bool) (now : Moment) (g : Gossip) (m : Result Receipt) (st st' : Running s x v me remote)
      → work_on s gossip_queue x v b now g m st ≡ ok st'
      → Kept st st'
  unfolding work_on with_cache
  work_on-Kept b now g (ok r) st st' h =
      let (d, _, h₁) = >>=-eq-ok (delay g) _ h in timed-Kept _ b now g r st st' h₁
  work_on-Kept b now g (err e) st st' h =
      ap (λ (t : Running s x v me remote). t.gossip.queue) (sym (ok-injective h))
  work_on-Kept b now g panic st st' h = cc

  new_transaction-Kept :
      (b : Bool) (now : Moment) (t : Transaction) (delegates : List Node)
      (st : Running s x v me remote) (out : Response × GossipState s gossip_queue)
      → new_transaction s gossip_queue x me remote now b t delegates st.db st.gossip ≡ ok out
      → out.1.queue ≡ st.gossip.queue
  unfolding new_transaction
  new_transaction-Kept true now t delegates st out h =
      elim (start_gossiping-IsNew s gossip_queue x me remote now t delegates st.db st.gossip out
        h) [
          | inl (same, _) ↦ ap (λ (t : GossipState s gossip_queue). t.queue) same
          | inr (_, begun) ↦ begun.same_queue
        ]
  new_transaction-Kept false now t delegates st out h =
      ap (λ (o : Response × GossipState s gossip_queue). o.1.queue) (sym (ok-injective h))

  do_work-IsTracked :
      (b : Bool) (now : Moment) (st st' : Running s x v me remote)
      → do_work s gossip_queue x v b now st ≡ ok st'
      → IsTracked st.gossip.queue
      → IsTracked st'.gossip.queue
  unfolding do_work
  do_work-IsTracked b now st st' h tracked = elim (Bool-cases (has_available st.gossip.queue)) [
    | inl some_left ↦
        let (p, popped, h₁) = >>=-eq-ok (pop st.gossip.queue) _ (rw (some_left, do_work) at h) in
        subst IsTracked
          (sym (
            work_on-Kept b now p.0 (to_receipt_from_cache s st.gossip.cache p.0.transaction.hash)
              (record st { gossip = record st.gossip { queue = p.1 } }) st' h₁))
          (pop-IsTracked st.gossip.queue p.1 p.0 tracked popped).0
    | inr empty ↦
        subst (λ (t : Running s x v me remote). IsTracked t.gossip.queue)
          (ok-injective (rw (empty, do_work) at h)) tracked
  ]

  step-IsTracked :
      (st st' : Running s x v me remote)
      → Step s x v me remote st st'
      → IsTracked st.gossip.queue
      → IsTracked st'.gossip.queue
  step-IsTracked st st' (Step.called now b t delegates _ out h) tracked =
      subst IsTracked (sym (new_transaction-Kept b now t delegates st out h)) tracked
  step-IsTracked st st' (Step.gossiped now g delegates _ answer h) tracked = tracked
  step-IsTracked st st' (Step.received now intn g rest delegates _ after e h) tracked =
      elim (gossip_worker-cases s gossip_queue x me remote now intn g delegates _ after h) [
        | inl (same, _) ↦ subst IsTracked (sym same) tracked
        | inr queued ↦
            subst IsTracked (sym queued.pushed)
              (push-IsTracked st.gossip.queue _ tracked queued.new)
      ]
  step-IsTracked st st' (Step.timed now b _ _ h) tracked = do_work-IsTracked b now st st' h tracked

  -- Where each call and each message is one step, however those of clients, peers and channels follow
  -- each other, and whatever peers and delegates answer: the queue has one gossip of each transaction
  -- that exists in it, and none of the others, in every state that a delegate comes to.
  pub Reachable-IsTracked :
      (st : Running s x v me remote) → Reachable s x v me remote st → IsTracked st.gossip.queue
  unfolding exists exists_in
  Reachable-IsTracked st (Reachable.begun db c) = λ h. refl
  Reachable-IsTracked st (Reachable.next st₁ _ r step) =
      step-IsTracked st₁ st step (Reachable-IsTracked st₁ r)
