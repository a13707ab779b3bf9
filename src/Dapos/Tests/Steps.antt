-- ===== src/Dapos/Tests/Steps.antt =====
-- A run of a delegate that is alone: a client's transaction, and the message that comes of it.
use disgo.Prelude.{List, ◌-◌, ◌≡◌, refl, true, [], ◌∷◌, ◌-ℤ◌, sub64, wrap64}
use disgo.Prelude.Text.{hex_encode, hex_decode, write_int64}
use disgo.Crypto
use disgo.Crypto.Toy.{toy, fill}
use disgo.Types.Errors.{ok}
use disgo.Types.Rumor.{Rumor}
use disgo.Types.Rumor
use disgo.Types.Receipt
use disgo.Types.Gossip.{Gossip, new_gossip, has_rumor, contains_rumor}
use disgo.Types.Gossip
use disgo.Store.{assoc_stores, lookup}
use disgo.Store.Records.{have_sent, cache_receipt, cache_gossip}
use disgo.Store.Records.Transactions.{cache_transaction, to_transaction_from_cache}
use disgo.Store.Records.Transactions
use disgo.Types.Transaction.Signing.{verify, check_shape, check_type, check_signature, new_hash}
use disgo.Dapos.Peers.{cache_on_first_receive, tell_all}
use disgo.Dapos.Gossip.{
  GossipState, Response, start_gossiping, unless_invalid, unless_executed, unless_cached, begin,
}
use disgo.Types.Receipt.{new_receipt}
use disgo.Dapos.Api.{new_transaction}
use disgo.Dapos.Tests.Consensus.{alice, me, silent, now, node, payment}
use disgo.Queue
use disgo.Queue.{gossip_queue, new_queue}
use disgo.Queue.Tracking.{IsTracked}
use disgo.Heap
use disgo.Types.Gossip.{Gossip}
use disgo.Dapos.Tests.{no_dvm}
use disgo.Dapos.Worker.{wait, gossip_worker, timely, decide, enqueue}
use disgo.Dapos.Gossip.{has_quorum}
use disgo.Dapos.Steps.{Running, Step, Reachable}
use disgo.Dapos.Steps.Tracked.{Reachable-IsTracked}

abbrev Alone : Type 0
Alone = Running assoc_stores toy no_dvm me silent

abbrev at_start : Alone
at_start = record {
  db = [];
  gossip = record { cache = []; chan = []; queue = new_queue; timers = [] };
}

taken :
    (out : Response × GossipState assoc_stores gossip_queue) × (new_transaction assoc_stores
        gossip_queue toy me silent now true payment
        (node alice ∷ [])
        []
        at_start.gossip
      ≡ ok out)
    × (g : Gossip) × (rest : List Gossip) × (out.1.chan ≡ g ∷ rest)
    × (after : GossipState assoc_stores gossip_queue) × (gossip_worker assoc_stores gossip_queue toy
          me silent now
          (λ n. n - 1)
          g
          (node alice ∷ [])
          (record out.1 { chan = rest })
        ≡ ok after)
unfolding new_transaction start_gossiping unless_invalid unless_executed unless_cached begin
    cache_on_first_receive tell_all verify check_shape check_type check_signature new_hash
    Rumor.new_rumor Rumor.sign_rumor Rumor.hash_of Rumor.rumor_hash fill Crypto.new_hash
    Crypto.new_signature Crypto.to_address Crypto.to_public_key Crypto.verify_signature hex_encode
    hex_decode write_int64 have_sent lookup Gossip.key Gossip.rumor_key cache_transaction
    cache_receipt cache_gossip Receipt.key Transactions.key to_transaction_from_cache sub64 wrap64
    ◌-ℤ◌ new_gossip gossip_worker timely decide enqueue has_quorum Queue.exists Queue.exists_in
    Queue.push Queue.put Heap.push Heap.up wait
taken = (_, refl, _, _, refl, _, refl)

abbrev worked_on : Alone
worked_on = record at_start { gossip = taken.5 }

reached : Reachable assoc_stores toy no_dvm me silent worked_on
reached =
    Reachable.next _ _
      (Reachable.next _ _ (Reachable.begun [] [])
        (Step.called now true payment (node alice ∷ []) at_start taken.0 taken.1))
      (Step.received now (λ n. n - 1) taken.2 taken.3 (node alice ∷ [])
        (record at_start { gossip = taken.0.1 }) taken.5 taken.4 taken.6)

Reachable-IsTracked_example : IsTracked worked_on.gossip.queue
Reachable-IsTracked_example =
    Reachable-IsTracked assoc_stores toy no_dvm me silent worked_on reached
