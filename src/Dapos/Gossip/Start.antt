-- ===== src/Dapos/Gossip/Start.antt =====
-- What startGossiping of dapos/dapos_handshake.go lets through.
use disgo.Prelude.{
  ◌≡◌, ◌≢◌, refl, subst, Bool, true, false, ◌⊎◌, inl, inr, some, List, [], ◌∷◌, ◌++◌, pos, ltb_ℤ,
  sub64, if◌then◌else◌,
}
use disgo.Prelude.Text.{codes}
use disgo.Crypto.{External}
use disgo.Types.Errors.{Error, Result, ok, err, panic, >>=-eq-ok, ok-injective, key_not_found}
use disgo.Types.Constants.{pending, transaction_time_out, tx_receive_timeout}
use disgo.Types.Json.{Json}
use disgo.Types.Rumor.{Rumor, new_rumor}
use disgo.Types.Gossip.{new_gossip}
use disgo.Types.Node.{Node}
use disgo.Types.Transaction.{Transaction}
use disgo.Types.Transaction.Signing.{verify}
use disgo.Store.{Value, Stores}
use disgo.Store.Records.Transactions.{key, to_transaction_from_cache}
use disgo.Dapos.Peers.{Delegate, Reply, Moment, own_rumor, own_rumor-eq-ok, cache_on_first_receive}
use disgo.Dapos.Gossip.{
  GossipQueue, GossipState, Response, begin, unless_cached, unless_executed, unless_invalid, refuse,
  Reason, start_gossiping,
}

module _ (s : Stores) (q : GossipQueue) (x : External) (me : Delegate)
    (remote : Node → Json → Reply) (now : Moment) (t : Transaction) (delegates : List Node)
    (db : s.Db) (st : GossipState s q) where
  -- Why a transaction is gossiped about: it verifies, is no older than the limit, is not stored, and
  -- is not being processed.
  pub record IsNew : Type 0 where
    pub verifies : verify x t ≡ ok tt
    pub recent : ltb_ℤ (pos tx_receive_timeout) (sub64 now.millis t.time) ≡ false
    pub not_stored : s.txn_get (s.new_transaction db) (key t.hash) ≡ err key_not_found
    pub why : Error
    pub not_cached : to_transaction_from_cache s x st.cache t.hash ≡ err why

  -- What is begun: one message, of the transaction with one rumor of ours.
  pub record IsBegun (out : Response × GossipState s q) : Type 0 where
    pub rumor : Rumor
    pub ours : new_rumor x me.private_key me.address t.hash now.millis ≡ some rumor
    pub answer : out.0.status ≡ pending
    pub message : out.1.chan ≡ st.chan ++ record (new_gossip t) { rumors = rumor ∷ [] } ∷ []
    pub same_queue : out.1.queue ≡ st.queue
    pub told :
        cache_on_first_receive s x me remote now
          (record (new_gossip t) { rumors = rumor ∷ [] })
          delegates
          st.cache
        ≡ ok out.1.cache

  abbrev pub IsRefused : Response × GossipState s q → Type 0
  IsRefused out = (out.1 ≡ st) × (out.0.status ≢ pending)

  begin-IsBegun :
      (out : Response × GossipState s q)
      → begin s q x me remote now t delegates st ≡ ok out
      → IsBegun out
  unfolding begin
  begin-IsBegun out h =
      let (r, made, h₁) =
        >>=-eq-ok (own_rumor (new_rumor x me.private_key me.address t.hash now.millis)) _ h in
      let (c, told, h₂) =
        >>=-eq-ok (cache_on_first_receive s x me remote now _ delegates st.cache) _ h₁ in
      subst IsBegun (ok-injective h₂) (record {
        rumor = r;
        ours = own_rumor-eq-ok _ made;
        answer = refl;
        message = refl;
        same_queue = refl;
        told = told;
      })

  -- Either the transaction is refused, and nothing has changed, or it is new and begun.
  abbrev Outcome : Response × GossipState s q → Type 0
  Outcome out = IsRefused out ⊎ (IsNew × IsBegun out)

  cached-Outcome :
      (m : Result Transaction) (out : Response × GossipState s q)
      → ((e : Error) → m ≡ err e → IsNew)
      → unless_cached s q x me remote now m t delegates st ≡ ok out
      → Outcome out
  unfolding unless_cached
  cached-Outcome (ok u) out new h = subst Outcome (ok-injective h) (inl (refl, λ e. cc e))
  cached-Outcome (err e) out new h = inr (new e refl, begin-IsBegun out h)
  cached-Outcome panic out new h = cc

  executed-Outcome :
      (m : Result Value) (out : Response × GossipState s q)
      → (m ≡ err key_not_found
          → (e : Error) → to_transaction_from_cache s x st.cache t.hash ≡ err e
          → IsNew)
      → unless_executed s q x me remote now m t delegates st ≡ ok out
      → Outcome out
  unfolding unless_executed
  executed-Outcome (ok u) out new h = subst Outcome (ok-injective h) (inl (refl, λ e. cc e))
  executed-Outcome (err key_not_found) out new h = cached-Outcome _ out (new refl) h
  executed-Outcome (err _) out new h = subst Outcome (ok-injective h) (inl (refl, λ e. cc e))
  executed-Outcome panic out new h = cc

  in_time :
      (late : Bool) (out : Response × GossipState s q)
      → verify x t ≡ ok tt
      → ltb_ℤ (pos tx_receive_timeout) (sub64 now.millis t.time) ≡ late
      → (if late
          then refuse s q x me remote now st transaction_time_out
              (Reason.said (codes "Transaction was received later than 3 second limit"))
          else unless_executed s q x me remote now
              (s.txn_get (s.new_transaction db) (key t.hash))
              t
              delegates
              st)
        ≡ ok out
      → Outcome out
  unfolding refuse
  in_time true out v e h = subst Outcome (ok-injective h) (inl (refl, λ f. cc f))
  in_time false out v e h =
      executed-Outcome _ out
        (λ missing why uncached. record {
          verifies = v;
          recent = e;
          not_stored = missing;
          why = why;
          not_cached = uncached;
        })
        h

  verified-Outcome :
      (m : Result (Unit {0})) (out : Response × GossipState s q)
      → verify x t ≡ m
      → unless_invalid s q x me remote now m t delegates db st ≡ ok out
      → Outcome out
  unfolding unless_invalid
  verified-Outcome (ok u) out e h = in_time _ out e refl h
  verified-Outcome (err c) out e h = subst Outcome (ok-injective h) (inl (refl, λ f. cc f))
  verified-Outcome panic out e h = cc

  -- A client's transaction is either refused, with a status that is not Pending and with nothing
  -- changed; or it verifies, is received in time, is neither stored nor being processed, and the
  -- answer is Pending and one message goes into gossipChan, with one rumor, this delegate's own.
  pub start_gossiping-IsNew :
      (out : Response × GossipState s q)
      → start_gossiping s q x me remote now t delegates db st ≡ ok out
      → IsRefused out ⊎ (IsNew × IsBegun out)
  unfolding start_gossiping
  start_gossiping-IsNew out h = verified-Outcome (verify x t) out refl h
