-- ===== src/Dapos/Tests/Consensus.antt =====
-- Concrete runs of the gossip's part of dapos/dapos_handshake.go, on which the theorems apply.
use disgo.Prelude.{
  arith, length, ◌≤◌, ◌-◌, ◌≡◌, refl, ◌⊎◌, Bool, true, false, some, none, List, [], ◌∷◌, ◌++◌, ℤ,
  pos, ◌-ℤ◌, All, Any, sub64, wrap64, if◌then◌else◌,
}
use disgo.Prelude.Text.{Bytes, codes, hex_encode, hex_decode, ◌=ₛ◌, write_int64}
use disgo.Crypto
use disgo.Crypto.Toy.{toy, fill, toy_key, toy_public_key, toy-IsDigest, toy-IsKeyPair}
use disgo.Types.Errors.{Error, Result, ok, err, panic, key_not_found, not_found}
use disgo.Types.Json.{Json}
use disgo.Types.Rumor.{Rumor}
use disgo.Types.Rumor
use disgo.Types.Rumor.TimeDelta.{
  validate_time_delta, validate_time_delta-IsFresh, IsFresh, sort, less, gaps_ok,
}
use disgo.Types.Receipt
use disgo.Types.Gossip.{Gossip, new_gossip, has_rumor, contains_rumor}
use disgo.Types.Gossip
use disgo.Types.Node
use disgo.Types.Node.{Node, is_available}
use disgo.Types.Transaction.{Transaction}
use disgo.Types.Transaction
use disgo.Types.Constants.{status_text}
use disgo.Store.{Cached, assoc_stores, lookup}
use disgo.Store.Records.{
  to_gossip_from_cache, have_sent, to_receipt_from_cache, cache_receipt, cache_gossip,
}
use disgo.Store.Records.Transactions.{cache_transaction, to_transaction_from_cache}
use disgo.Store.Records.Transactions
use disgo.Types.Transaction.Signing.{verify, check_shape, check_type, check_signature, new_hash}
use disgo.Dapos.Peers.{
  Delegate, Reply, no_connection, Moment, Synced, synchronize_gossip, synchronize_with, merged,
  joined, join_in, absorb, cache_on_first_receive, tell_all,
}
use disgo.Dapos.Peers.Rumors.{IsMember, IsSound, Extends}
use disgo.Dapos.Peers.Sync.{synchronize_gossip-IsSound, synchronize_gossip-Extends}
use disgo.Dapos.Tests.{no_dvm}
use disgo.Dapos.Gossip.{
  GossipQueue, GossipState, Response, get_random_delegate, candidates, start_gossiping,
  unless_invalid, unless_executed, unless_cached, begin, has_quorum,
}
use disgo.Dapos.Gossip.Start.{IsRefused, IsNew, IsBegun, start_gossiping-IsNew}
use disgo.Dapos.Worker.{NodeState, gossip_worker, timely, decide, enqueue, do_work, work_on}
use disgo.Dapos.Worker.Queueing.{IsQueued}
use disgo.Dapos.Worker.Quorum.{IsExecuted, gossip_worker-IsQueued, do_work-IsExecuted}
use disgo.Dapos.Gossip.Choice.{IsEligible, get_random_delegate-IsEligible, get_random_delegate-none}

abbrev pub alice : Bytes
alice = hex_encode (fill 20 64)

abbrev bob : Bytes
bob = hex_encode (fill 20 2)

abbrev pub me : Delegate
me = record { private_key = hex_encode toy_key; address = alice; this_node = alice }

abbrev pub silent : Node → Json → Reply
silent n j = no_connection key_not_found

abbrev pub now : Moment
now = record { nanos = pos 1500000000; millis = pos 1500 }

member : IsMember toy me
unfolding hex_encode hex_decode fill Crypto.to_address Crypto.new_hash
member = record {
  key = toy_key;
  public_key = toy_public_key;
  address_bytes = fill 20 64;
  digest = toy-IsDigest;
  pair = toy-IsKeyPair;
  key_text = refl;
  address_is = refl;
  size = refl;
  address_text = refl;
}

abbrev pub node : Bytes → Node
node address = record Node.empty { address = address; type = codes "Delegate" }

-- The payment of alice to bob, signed.
abbrev pub payment : Transaction
payment = record Transaction.empty {
  hash = hex_encode (fill 32 57);
  from = alice;
  to = bob;
  value = pos 7;
  time = pos 1000;
  signature = hex_encode (fill 65 32);
}

abbrev rumor : Bytes → ℤ → Rumor
rumor address time = record {
  hash = hex_encode (fill 32 60);
  address = address;
  transaction_hash = hex_encode (fill 32 57);
  time = time;
  signature = hex_encode (fill 65 32);
}

abbrev rumors : List Rumor
rumors = rumor bob (pos 1400) ∷ rumor alice (pos 1200) ∷ []

rumors_in_time :
    validate_time_delta (pos 1500) rumors
    ≡ ok (true, rumor alice (pos 1200) ∷ rumor bob (pos 1400) ∷ [])
unfolding validate_time_delta sort less gaps_ok sub64 wrap64 ◌-ℤ◌
rumors_in_time = refl

validate_time_delta-IsFresh_example : All (IsFresh (pos 1500) 2) rumors
validate_time_delta-IsFresh_example =
    validate_time_delta-IsFresh (pos 1500) rumors _ (omega arith, omega arith)
      ((omega arith, omega arith), ((omega arith, omega arith), tt)) rumors_in_time

-- The node that is not this one is chosen.
bob_chosen :
    get_random_delegate assoc_stores me now
      (λ k. k - 1)
      (new_gossip payment)
      (node bob ∷ node alice ∷ [])
      []
    ≡ ok (some (node bob))
unfolding get_random_delegate candidates have_sent lookup is_available status_text new_gossip
    hex_encode fill
bob_chosen = refl

get_random_delegate-IsEligible_example :
    IsEligible assoc_stores me now payment.hash [] (node bob)
    × Any (λ m. m ≡ node bob) (node bob ∷ node alice ∷ [])
unfolding new_gossip
get_random_delegate-IsEligible_example =
    get_random_delegate-IsEligible assoc_stores me now (λ k. k - 1) (new_gossip payment)
      (node bob ∷ node alice ∷ []) [] (node bob) bob_chosen

-- This node alone has nobody to talk to.
nobody_chosen :
    get_random_delegate assoc_stores me now (λ k. k - 1) (new_gossip payment) (node alice ∷ []) []
    ≡ ok none
unfolding get_random_delegate candidates have_sent lookup is_available status_text new_gossip
    hex_encode fill
nobody_chosen = refl

get_random_delegate-none_example :
    ¬ Any
      (IsEligible assoc_stores me now (new_gossip payment).transaction.hash [])
      (node alice ∷ [])
get_random_delegate-none_example =
    get_random_delegate-none assoc_stores me now (λ k. k - 1) (new_gossip payment) (node alice ∷ [])
      [] (λ k h. omega arith) nobody_chosen

-- The gossip that is cached, and the one that a peer sends.
abbrev held : Gossip
held = record { transaction = payment; rumors = [] }

abbrev sent : Gossip
sent = record { transaction = payment; rumors = rumor alice (pos 1200) ∷ [] }

abbrev cache : List (Bytes × Cached)
cache = (Gossip.key payment.hash, Cached.gossip held) ∷ []

held_cached : to_gossip_from_cache assoc_stores cache payment.hash ≡ ok held
unfolding to_gossip_from_cache lookup Gossip.key hex_encode fill
held_cached = refl

not_cached : to_gossip_from_cache assoc_stores [] payment.hash ≡ err not_found
unfolding to_gossip_from_cache lookup
not_cached = refl

synced :
    (r : Synced assoc_stores) × (synchronize_gossip assoc_stores toy me silent now sent
        (node alice ∷ [])
        cache
      ≡ ok r)
unfolding synchronize_gossip synchronize_with merged joined absorb contains_rumor has_rumor
    Rumor.verify Rumor.hash_of Rumor.rumor_hash Rumor.signed_by fill Crypto.new_hash
    Crypto.to_address Crypto.to_public_key Crypto.verify_signature hex_encode hex_decode write_int64
    to_gossip_from_cache lookup Gossip.key
synced = (_, refl)

synchronize_gossip-IsSound_example :
    IsSound toy synced.0.gossip.rumors
    × Extends toy [] synced.0.gossip.rumors
    × ((has_rumor synced.0.gossip.rumors alice ≡ true) ⊎ ((e : Error) × (synced.0.error ≡ some e)))
synchronize_gossip-IsSound_example =
    synchronize_gossip-IsSound assoc_stores toy me silent now member sent held (node alice ∷ [])
      cache synced.0 held_cached (tt, tt) synced.1

-- A rumor that does not verify, of the first gossip about the payment.
abbrev forged : Gossip
forged = record { transaction = payment; rumors = rumor bob (pos 1100) ∷ [] }

first_synced :
    (r : Synced assoc_stores) × (synchronize_gossip assoc_stores toy me silent now forged
        (node alice ∷ [])
        []
      ≡ ok r)
unfolding synchronize_gossip synchronize_with merged joined join_in cache_on_first_receive tell_all
    absorb contains_rumor has_rumor verify check_shape check_type check_signature new_hash
    Rumor.new_rumor Rumor.sign_rumor Rumor.hash_of Rumor.rumor_hash fill Crypto.new_hash
    Crypto.new_signature Crypto.to_address Crypto.to_public_key Crypto.verify_signature hex_encode
    hex_decode write_int64 to_gossip_from_cache have_sent lookup Gossip.key Gossip.rumor_key
    cache_transaction cache_receipt cache_gossip Receipt.key Transactions.key
first_synced = (_, refl)

synchronize_gossip-Extends_example :
    Extends toy (rumor bob (pos 1100) ∷ []) first_synced.0.gossip.rumors
synchronize_gossip-Extends_example =
    synchronize_gossip-Extends assoc_stores toy me silent now forged (node alice ∷ []) not_found []
      first_synced.0 not_cached first_synced.1

-- A queue as a list, in the order in which gossip comes.
pub exists_in : List Gossip → Bytes → Bool
exists_in [] hash = false
exists_in (g ∷ l) hash = if g.transaction.hash =ₛ hash then true else exists_in l hash

abbrev first_of : List Gossip → Result (Gossip × List Gossip)
first_of [] = panic
first_of (g ∷ l) = ok (g, l)

abbrev some_left : List Gossip → Bool
some_left [] = false
some_left (g ∷ l) = true

abbrev pub fifo : GossipQueue
fifo = record {
  Queue = List Gossip;
  exists = exists_in;
  push = λ l g. l ++ g ∷ [];
  pop = first_of;
  has_available = some_left;
}

abbrev pub idle : GossipState assoc_stores fifo
idle = record { cache = []; chan = []; queue = []; timers = [] }

started :
    (out : Response × GossipState assoc_stores fifo) × (start_gossiping assoc_stores fifo toy me
        silent now payment
        (node alice ∷ [])
        []
        idle
      ≡ ok out)
unfolding start_gossiping unless_invalid unless_executed unless_cached begin cache_on_first_receive
    tell_all verify check_shape check_type check_signature new_hash Rumor.new_rumor Rumor.sign_rumor
    Rumor.hash_of Rumor.rumor_hash fill Crypto.new_hash Crypto.new_signature Crypto.to_address
    Crypto.to_public_key Crypto.verify_signature hex_encode hex_decode write_int64 have_sent lookup
    Gossip.key Gossip.rumor_key cache_transaction cache_receipt cache_gossip Receipt.key
    Transactions.key to_transaction_from_cache sub64 wrap64 ◌-ℤ◌ new_gossip
started = (_, refl)

start_gossiping-IsNew_example :
    IsRefused assoc_stores fifo toy me silent now payment (node alice ∷ []) [] idle started.0
    ⊎ (IsNew assoc_stores fifo toy me silent now payment (node alice ∷ []) [] idle
        × IsBegun assoc_stores fifo toy me silent now payment (node alice ∷ []) [] idle started.0)
start_gossiping-IsNew_example =
    start_gossiping-IsNew assoc_stores fifo toy me silent now payment (node alice ∷ []) [] idle
      started.0 started.1

-- Two rumors in time, of three delegates.
abbrev talked : Gossip
talked = record { transaction = payment; rumors = rumors }

abbrev three : List Node
three = node alice ∷ node bob ∷ node (codes "cc") ∷ []

worked :
    (st : GossipState assoc_stores fifo) × (gossip_worker assoc_stores fifo toy me silent now
        (λ k. k - 1)
        talked
        three
        idle
      ≡ ok st)
unfolding gossip_worker timely validate_time_delta sort less gaps_ok sub64 wrap64 ◌-ℤ◌ decide
    enqueue has_quorum exists_in
worked = (_, refl)

gossip_worker-IsQueued_example :
    ((worked.0.queue ≡ []) × (worked.0.timers ≡ []))
    ⊎ (IsQueued assoc_stores fifo toy me silent now talked three idle worked.0
        × ((length rumors ≤ 1) ⊎ All (IsFresh now.millis (length rumors)) rumors))
gossip_worker-IsQueued_example =
    gossip_worker-IsQueued assoc_stores fifo toy me silent now (λ k. k - 1) talked three idle
      worked.0 (omega arith, omega arith)
      ((omega arith, omega arith), ((omega arith, omega arith), tt)) worked.1

-- A queue with the gossip, and no receipt in the cache.
abbrev waiting : NodeState assoc_stores fifo
waiting = record { db = []; gossip = record idle { queue = talked ∷ [] } }

done :
    (st : NodeState assoc_stores fifo) × (do_work assoc_stores fifo toy no_dvm true now waiting
      ≡ ok st)
unfolding do_work work_on to_receipt_from_cache lookup
done = (_, refl)

do_work-IsExecuted_example :
    (done.0.db ≡ []) ⊎ ((true ≡ true) × IsExecuted assoc_stores fifo toy no_dvm now waiting done.0)
do_work-IsExecuted_example =
    do_work-IsExecuted assoc_stores fifo toy no_dvm now true waiting done.0 done.1
