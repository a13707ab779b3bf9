-- ===== src/Dapos/Api/Pending.antt =====
-- What the handlers of dapos/dapos_api.go answer about a transaction that NewTransaction has taken:
-- startGossiping (dapos/dapos_handshake.go) leaves the receipt and the transaction in the cache, and
-- the calls to the peers do not touch them.
use disgo.Prelude.{
  ◌≡◌, ◌≢◌, refl, sym, ap, ◌∙◌, Bool, true, false, not, ◌&&◌, inl, inr, some, List, [], ◌∷◌, ℤ,
}
use disgo.Prelude.Text.{Bytes, apart, ◌=ₛ◌}
use disgo.Crypto.{External}
use disgo.Types.Errors.{Result, ok, err, panic, >>=-eq-ok, ok-injective}
use disgo.Types.Constants.{pending}
use disgo.Types.Json.{Json}
use disgo.Types.Receipt.{Receipt, new_receipt}
use disgo.Types.Receipt
use disgo.Types.Gossip.{Gossip, new_gossip}
use disgo.Types.Gossip
use disgo.Types.Node.{Node}
use disgo.Types.Node
use disgo.Types.Transaction.{Transaction}
use disgo.Store.{Cached, Stores, IsCache}
use disgo.Store.Records.{
  have_sent, with_sent, cache_receipt, cache_gossip, cache_sent_delegate, to_receipt_from_cache,
}
use disgo.Store.Records.Transactions.{
  key, cache_transaction, to_transaction_from_cache, to_transaction_by_hash, to_transaction_by_key,
}
use disgo.Store.Records.Nodes.{cache_node}
use disgo.Dapos.Peers.{
  Delegate, Reply, Moment, peer_gossip, noted, received, answered, after_call, call_if, tell_all,
  cache_on_first_receive,
}
use disgo.Dapos.Gossip.{GossipQueue, GossipState, Response}
use disgo.Dapos.Gossip.Start.{start_gossiping-IsNew}
use disgo.Dapos.Api.{
  with_payload, new_transaction, get_receipt, get_transaction, cached_receipt_or, stored_or,
  cached_or,
}

-- A key that the calls to the peers do not write to.
record IsApart (k : Bytes) : Type 0 where
  node : (a : Bytes) → Node.key a ≢ k
  type : (n : Node) → Node.type_key n ≢ k
  sent : (hash : Bytes) → Gossip.rumor_key hash ≢ k

receipt-IsApart : (hash : Bytes) → IsApart (Receipt.key hash)
unfolding Receipt.key Node.key Node.type_key Gossip.rumor_key
receipt-IsApart hash = record {
  node = λ a. apart 6 b'n' refl refl;
  type = λ n. apart 0 b'k' refl refl;
  sent = λ h. apart 0 b'c' refl refl;
}

transaction-IsApart : (hash : Bytes) → IsApart (key hash)
unfolding key Node.key Node.type_key Gossip.rumor_key
transaction-IsApart hash = record {
  node = λ a. apart 6 b'n' refl refl;
  type = λ n. apart 0 b'k' refl refl;
  sent = λ h. apart 0 b'c' refl refl;
}

module _ (s : Stores) (laws : IsCache s) (k : Bytes) (away : IsApart k) where
  abbrev Keeps : s.Cache → s.Cache → Type 0
  Keeps c d = s.cache_get d k ≡ s.cache_get c k

  node-Keeps : (n : Node) (c : s.Cache) → Keeps c (cache_node s n c)
  unfolding cache_node
  node-Keeps n c =
      laws.get-set_ne _ _ _ _ (away.type n) ∙ laws.get-set_ne _ _ _ _ (away.node n.address)

  sent-Keeps : (hash a : Bytes) (c d : s.Cache) → cache_sent_delegate s hash a c ≡ ok d → Keeps c d
  unfolding cache_sent_delegate
  sent-Keeps hash a c d e =
      let (l, _, set) = >>=-eq-ok (with_sent s a (s.cache_get c (Gossip.rumor_key hash))) _ e in
      ap (λ (d : s.Cache). s.cache_get d k) (sym (ok-injective set))
      ∙ laws.get-set_ne _ _ _ _ (away.sent hash)

module _ (s : Stores) (x : External) (me : Delegate) (remote : Node → Json → Reply) (now : Moment)
    (laws : IsCache s) (k : Bytes) (away : IsApart k) where
  noted-Keeps :
      (g : Gossip) (c : s.Cache) (m : Result s.Cache)
      → ((d : s.Cache) → m ≡ ok d → Keeps s laws k away c d)
      → Keeps s laws k away c (noted s x me remote now g c m).1
  noted-Keeps g c (ok d) keeps = keeps d refl
  noted-Keeps g c (err e) keeps = refl
  noted-Keeps g c panic keeps = refl

  received-Keeps :
      (g : Gossip) (n : Node) (m : Result Gossip) (c : s.Cache)
      → Keeps s laws k away c (received s x me remote now g n m c).1
  unfolding received
  received-Keeps g n (ok h) c =
      noted-Keeps h c (cache_sent_delegate s g.transaction.hash n.address c)
        (sent-Keeps s laws k away g.transaction.hash n.address c)
  received-Keeps g n (err e) c = refl
  received-Keeps g n panic c = refl

  answered-Keeps :
      (g : Gossip) (n : Node) (r : Reply) (c : s.Cache)
      → Keeps s laws k away c (answered s x me remote now g n r c).1
  unfolding answered
  answered-Keeps g n (Reply.no_connection e) c = refl
  answered-Keeps g n (Reply.call_failed e) c = node-Keeps s laws k away _ c
  answered-Keeps g n (Reply.response j) c = received-Keeps g n _ c

  call-Keeps :
      (out : Result Gossip × s.Cache) (c d : s.Cache)
      → Keeps s laws k away c out.1
      → after_call s x me remote now out ≡ ok d
      → Keeps s laws k away c d
  unfolding after_call
  call-Keeps (ok g, c') c d keeps e =
      ap (λ (d : s.Cache). s.cache_get d k) (sym (ok-injective e)) ∙ keeps
  call-Keeps (err f, c') c d keeps e =
      ap (λ (d : s.Cache). s.cache_get d k) (sym (ok-injective e)) ∙ keeps
  call-Keeps (panic, c') c d keeps e = cc

  told-Keeps :
      (due : Bool) (g : Gossip) (n : Node) (c d : s.Cache)
      → call_if s x me remote now due g n c ≡ ok d
      → Keeps s laws k away c d
  unfolding peer_gossip
  told-Keeps true g n c d e = call-Keeps _ c d (answered-Keeps g n _ c) e
  told-Keeps false g n c d e = ap (λ (d : s.Cache). s.cache_get d k) (sym (ok-injective e))

  tell_all-Keeps :
      (g : Gossip) (nodes : List Node) (c d : s.Cache)
      → tell_all s x me remote now g nodes c ≡ ok d
      → Keeps s laws k away c d
  unfolding tell_all
  tell_all-Keeps g [] c d e = ap (λ (d : s.Cache). s.cache_get d k) (sym (ok-injective e))
  tell_all-Keeps g (n ∷ nodes) c d e =
      let (sent, _, e₁) = >>=-eq-ok (have_sent s c g.transaction.hash n.address) _ e in
      let (c', told, e₂) =
        >>=-eq-ok (call_if s x me remote now (not sent && not (n.address =ₛ me.this_node)) g n c) _
          e₁ in
      tell_all-Keeps g nodes c' d e₂
      ∙ told-Keeps (not sent && not (n.address =ₛ me.this_node)) g n c c' told

module _ (s : Stores) (x : External) (me : Delegate) (remote : Node → Json → Reply) (now : Moment)
    (laws : IsCache s) (g : Gossip) (delegates : List Node) (c d : s.Cache)
    (told : cache_on_first_receive s x me remote now g delegates c ≡ ok d) where
  abbrev receipt : Receipt
  receipt = new_receipt g.transaction.hash now.nanos

  first-cached_receipt :
      s.cache_get d (Receipt.key g.transaction.hash) ≡ some (Cached.receipt receipt)
  unfolding cache_on_first_receive cache_transaction cache_gossip cache_receipt Receipt.key key
      Gossip.key new_receipt
  first-cached_receipt =
      tell_all-Keeps s x me remote now laws _ (receipt-IsApart g.transaction.hash) g delegates _ d
        told
      ∙ laws.get-set_ne _ _ _ _ (apart 6 b't' refl refl)
      ∙ laws.get-set_ne _ _ _ _ (apart 6 b'g' refl refl)
      ∙ laws.get-set_self _ _ _

  first-cached_transaction :
      s.cache_get d (key g.transaction.hash) ≡ some (Cached.transaction g.transaction)
  unfolding cache_on_first_receive cache_transaction
  first-cached_transaction =
      tell_all-Keeps s x me remote now laws _ (transaction-IsApart g.transaction.hash) g delegates _
        d told
      ∙ laws.get-set_self _ _ _

module _ (s : Stores) (x : External) (hash : Bytes) (e : s.Cache) where
  found-receipt :
      (r : Receipt)
      → s.cache_get e (Receipt.key hash) ≡ some (Cached.receipt r)
      → to_receipt_from_cache s e hash ≡ ok r
  unfolding to_receipt_from_cache
  found-receipt r h = rw h

  found-transaction :
      (t : Transaction) (r : Receipt)
      → t.hash ≡ hash
      → s.cache_get e (key hash) ≡ some (Cached.transaction t)
      → s.cache_get e (Receipt.key hash) ≡ some (Cached.receipt r)
      → to_transaction_from_cache s x e hash ≡ ok (record t { receipt = r })
  unfolding to_transaction_from_cache
  found-transaction t r same h k = rw (h, same, found-receipt r k)

module _ (s : Stores) (q : GossipQueue) (x : External) (me : Delegate)
    (remote : Node → Json → Reply) (now : Moment) (later : ℤ) (t : Transaction)
    (delegates : List Node) (db : s.Db) (st : GossipState s q) where
  -- A transaction that a delegate has answered with Pending can be asked for: its receipt is found,
  -- pending and of the time of the answer, and the transaction is found with that receipt, whatever
  -- the peers have answered. This holds of any later cache and database in which the entries of this
  -- transaction are as the answer has left them: its receipt and itself in the cache, and nothing
  -- under its key in the database.
  pub new_transaction-get_transaction :
      (out : Response × GossipState s q) (later_db : s.Db) (later_cache : s.Cache)
      → IsCache s
      → new_transaction s q x me remote now true t delegates db st ≡ ok out
      → out.0.status ≡ pending
      → s.cache_get later_cache (Receipt.key t.hash) ≡ s.cache_get out.1.cache (Receipt.key t.hash)
      → s.cache_get later_cache (key t.hash) ≡ s.cache_get out.1.cache (key t.hash)
      → s.txn_get (s.new_transaction later_db) (key t.hash)
        ≡ s.txn_get (s.new_transaction db) (key t.hash)
      → (get_receipt s x true later later_db t.hash later_cache
          ≡ ok (with_payload (new_receipt t.hash now.nanos)))
        × (get_transaction s x true later later_db t.hash later_cache
            ≡ ok (with_payload (record t { receipt = new_receipt t.hash now.nanos })))
  unfolding new_transaction get_receipt get_transaction new_gossip cached_receipt_or stored_or
      cached_or to_transaction_by_hash to_transaction_by_key
  new_transaction-get_transaction out later_db e laws h answer same_receipt same same_db =
      elim (start_gossiping-IsNew s q x me remote now t delegates db st out h) [
        | inl (same, refused) ↦ absurd (refused answer)
        | inr (new, begun) ↦
            let r = new_receipt t.hash now.nanos in
            let k =
              same_receipt
              ∙ first-cached_receipt s x me remote now laws _ delegates _ _ begun.told in
            let l =
              same ∙ first-cached_transaction s x me remote now laws _ delegates _ _ begun.told in
            (
              rw (found-receipt s x t.hash e r k),
              rw (same_db ∙ new.not_stored) (rw (found-transaction s x t.hash e t r refl l k)),
            )
      ]
