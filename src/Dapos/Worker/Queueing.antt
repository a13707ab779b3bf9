-- ===== src/Dapos/Worker/Queueing.antt =====
-- The branches of gossipWorker (dapos/dapos_handshake.go) that queue a transaction, and the others.
use disgo.Prelude.{
  ℕ, ◌*◌, ◌≤◌, ◌≡◌, refl, sym, ap, subst, Bool, true, false, ◌⊎◌, inl, inr, Option, none, some,
  List, [], ◌∷◌, ◌++◌, ℤ, leb→le, length, ◌==◌, Bool-cases, ltb, arith,
}
use disgo.Crypto.{External}
use disgo.Types.Errors.{Result, ok, err, panic, >>=-eq-ok, ok-injective}
use disgo.Types.Json.{Json}
use disgo.Types.Rumor.{Rumor}
use disgo.Types.Rumor.TimeDelta.{validate_time_delta}
use disgo.Types.Gossip.{Gossip}
use disgo.Types.Node.{Node}
use disgo.Store.{Stores}
use disgo.Dapos.Peers.{Delegate, Reply, Moment}
use disgo.Dapos.Gossip.{
  GossipQueue, GossipState, has_quorum, update_receipt_status, get_random_delegate,
}
use disgo.Dapos.Worker.{timely, wait, enqueue, called, rumor_with, spread, decide, gossip_worker}

timely-cases :
    (now : ℤ) (rumors sorted : List Rumor)
    → timely now rumors ≡ ok (true, sorted)
    → (length rumors ≤ 1) ⊎ (validate_time_delta now rumors ≡ ok (true, sorted))
unfolding timely
timely-cases now rumors sorted h = elim (Bool-cases (ltb 1 (length rumors))) [
  | inl e ↦ inr (rw e at h)
  | inr e ↦ inl (ground arith)
]

module _ (s : Stores) (q : GossipQueue) (x : External) (me : Delegate)
    (remote : Node → Json → Reply) (now : Moment) where
  -- What queueing a gossip takes: a rumor at most or rumors in time, of two thirds of the delegates,
  -- and no entry yet.
  pub record IsQueued (gossip : Gossip) (delegates : List Node) (st st' : GossipState s q)
      : Type 0 where
    pub rumors : List Rumor
    pub on_time : timely now.millis gossip.rumors ≡ ok (true, rumors)
    pub tested :
        (length gossip.rumors ≤ 1)
        ⊎ (validate_time_delta now.millis gossip.rumors ≡ ok (true, rumors))
    pub quorum : 2 * length delegates ≤ 3 * length rumors
    pub new : q.exists st.queue gossip.transaction.hash ≡ false
    pub pushed : st'.queue ≡ q.push st.queue (record gossip { rumors = rumors })
    pub timer : st'.timers ≡ st.timers ++ wait now.millis gossip.transaction (length delegates) ∷ []

  SameQueue : GossipState s q → GossipState s q → Type 0
  SameQueue st st' = (st'.queue ≡ st.queue) × (st'.timers ≡ st.timers)

  called-SameQueue :
      (gossip : Gossip) (st st' : GossipState s q) (r : Result Gossip × s.Cache)
      → called s q x me remote now gossip st r ≡ ok st'
      → SameQueue st st'
  unfolding called SameQueue
  called-SameQueue gossip st st' (ok g, c) h = subst (SameQueue st) (ok-injective h) (refl, refl)
  called-SameQueue gossip st st' (err e, c) h = subst (SameQueue st) (ok-injective h) (refl, refl)
  called-SameQueue gossip st st' (panic, c) h = cc

  rumor_with-SameQueue :
      (node : Option Node) (gossip : Gossip) (st st' : GossipState s q)
      → rumor_with s q x me remote now node gossip st ≡ ok st'
      → SameQueue st st'
  unfolding rumor_with SameQueue
  rumor_with-SameQueue none gossip st st' h =
      let (c, _, h₁) = >>=-eq-ok (update_receipt_status s gossip.transaction.hash _ _) _ h in
      subst (SameQueue st) (ok-injective h₁) (refl, refl)
  rumor_with-SameQueue (some n) gossip st st' h = called-SameQueue gossip st st' _ h

  spread-SameQueue :
      (intn : ℕ → ℕ) (gossip : Gossip) (delegates : List Node) (st st' : GossipState s q)
      (all : Bool)
      → (length gossip.rumors == length delegates) ≡ all
      → spread s q x me remote now intn gossip delegates st ≡ ok st'
      → SameQueue st st'
  unfolding spread SameQueue
  spread-SameQueue intn gossip delegates st st' true e h =
      subst (SameQueue st) (ok-injective (rw e at h)) (refl, refl)
  spread-SameQueue intn gossip delegates st st' false e h =
      let (n, _, h₁) =
        >>=-eq-ok (get_random_delegate s me now intn gossip delegates st.cache) _ (rw e at h) in
      rumor_with-SameQueue n gossip st st' h₁

  enqueue-cases :
      (g : Gossip) (delegates : List Node) (st st' : GossipState s q) (there : Bool)
      → q.exists st.queue g.transaction.hash ≡ there
      → ok (enqueue s q x me remote now there g (length delegates) st) ≡ ok st'
      → SameQueue st st'
        ⊎ ((q.exists st.queue g.transaction.hash ≡ false)
            × (st'.queue ≡ q.push st.queue g)
            × (st'.timers ≡ st.timers ++ wait now.millis g.transaction (length delegates) ∷ []))
  unfolding enqueue SameQueue
  enqueue-cases g delegates st st' true e h =
      inl (subst (SameQueue st) (ok-injective h) (refl, refl))
  enqueue-cases g delegates st st' false e h =
      let done = sym (ok-injective h) in
      inr
        (e, ap (λ (t : GossipState s q). t.queue) done, ap (λ (t : GossipState s q). t.timers) done)

  decide-IsQueued :
      (intn : ℕ → ℕ) (gossip : Gossip) (rumors : List Rumor) (delegates : List Node)
      (st st' : GossipState s q) (on_time quorum : Bool)
      → timely now.millis gossip.rumors ≡ ok (on_time, rumors)
      → has_quorum (length rumors) (length delegates) ≡ quorum
      → decide s q x me remote now on_time quorum intn
          (record gossip { rumors = rumors })
          delegates
          st
        ≡ ok st'
      → SameQueue st st' ⊎ IsQueued gossip delegates st st'
  unfolding decide SameQueue has_quorum
  decide-IsQueued intn gossip rumors delegates st st' false quorum e f h =
      let (c, _, h₁) = >>=-eq-ok (update_receipt_status s gossip.transaction.hash _ _) _ h in
      inl (subst (SameQueue st) (ok-injective h₁) (refl, refl))
  decide-IsQueued intn gossip rumors delegates st st' true false e f h =
      inl (spread-SameQueue intn _ delegates st st' _ refl h)
  decide-IsQueued intn gossip rumors delegates st st' true true e f h =
      elim (enqueue-cases (record gossip { rumors = rumors }) delegates st st' _ refl h) [
        | inl same ↦ inl same
        | inr (new, pushed, timer) ↦ inr (record {
          rumors = rumors;
          on_time = e;
          tested = timely-cases now.millis gossip.rumors rumors e;
          quorum = leb→le (2 * length delegates) (3 * length rumors) f;
          new = new;
          pushed = pushed;
          timer = timer;
        })
      ]

  pub gossip_worker-cases :
      (intn : ℕ → ℕ) (gossip : Gossip) (delegates : List Node) (st st' : GossipState s q)
      → gossip_worker s q x me remote now intn gossip delegates st ≡ ok st'
      → ((st'.queue ≡ st.queue) × (st'.timers ≡ st.timers)) ⊎ IsQueued gossip delegates st st'
  unfolding gossip_worker SameQueue
  gossip_worker-cases intn gossip delegates st st' h =
      let (p, e, h₁) = >>=-eq-ok (timely now.millis gossip.rumors) _ h in
      decide-IsQueued intn gossip p.1 delegates st st' p.0
        (has_quorum (length p.1) (length delegates)) e refl h₁
