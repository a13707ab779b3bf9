-- ===== src/Dapos/Peers.antt =====
-- The calls between delegates: peerGossipGrpc and GossipGrpc of dapos/dapos_transport_grpc.go, and
-- cacheOnFirstReceive and synchronizeGossip of dapos/dapos_handshake.go.
pub mod Rumors
pub mod Sync
use disgo.Prelude.{
  ◌≡◌, ℕ, Bool, true, false, not, ◌&&◌, ◌||◌, Option, none, some, List, [], ◌∷◌, ◌++◌, ℤ,
  if◌then◌else◌, ◌/◌,
}
use disgo.Prelude.Text.{Bytes, ◌=ₛ◌}
use disgo.Crypto.{External}
use disgo.Types.Errors.{Error, Result, ok, err, panic, ◌>>=◌}
use disgo.Types.Json.{Json}
use disgo.Types.Constants.{node_unavailable, status_text}
use disgo.Types.Rumor.{Rumor, new_rumor}
use disgo.Types.Rumor
use disgo.Types.Receipt.{new_receipt}
use disgo.Types.Gossip.{Gossip, has_rumor, contains_rumor}
use disgo.Types.Gossip
use disgo.Types.Node.{Node}
use disgo.Types.Node
use disgo.Types.Transaction.{Transaction}
use disgo.Types.Transaction.Signing
use disgo.Store.{Cached, Stores}
use disgo.Store.Records.{
  cache_receipt, cache_gossip, have_sent, cache_sent_delegate, to_gossip_from_cache,
}
use disgo.Store.Records.Transactions.{cache_transaction}
use disgo.Store.Records.Nodes.{cache_node}

-- types.GetAccount(), and ThisNode of disgover.
pub record Delegate : Type 0 where
  pub private_key : Bytes
  pub address : Bytes
  pub this_node : Bytes

-- What comes of a remote call: no connection, an error of the call, or the payload of the response.
pub data Reply : Type 0 where
  no_connection : Error → Reply
  call_failed : Error → Reply
  response : Json → Reply

-- A moment: nanoseconds, and the milliseconds that utils.ToMilliSeconds makes of them.
pub record Moment : Type 0 where
  pub nanos : ℤ
  pub millis : ℤ

-- `*rumor`
abbrev pub own_rumor : Option Rumor → Result Rumor
own_rumor none = panic
own_rumor (some r) = ok r

pub own_rumor-eq-ok : (o : Option Rumor) {r : Rumor} → own_rumor o ≡ ok r → o ≡ some r
own_rumor-eq-ok none e = cc
own_rumor-eq-ok (some r) e = cc

-- `if test { rumors = append(rumors, rumor) }`
abbrev pub add_if : Bool → List Rumor → Rumor → List Rumor
add_if true rumors r = rumors ++ r ∷ []
add_if false rumors r = rumors

module _ (x : External) where
  -- The loop of synchronizeGossip over the peer's rumors, with `hasAll`; our gossip is the one that
  -- is synchronized.
  unfoldable pub absorb : List Rumor → Bool → List Rumor → Bool × List Rumor
  absorb ours has_all [] = (has_all, ours)
  absorb ours has_all (r ∷ rs) =
      let has = has_rumor ours r.address in
      absorb (add_if (not has && Rumor.verify x r) ours r) has rs

  -- What the cache has of the transaction, together with what the peer sends.
  unfoldable pub merged : Gossip → Result Gossip → Result (Bool × Gossip)
  merged gossip (ok ours) =
      let (has_all, rumors) = absorb ours.rumors false gossip.rumors in
      ok (has_all, record ours { rumors = rumors })
  merged gossip (err e) = ok (false, gossip)
  merged gossip panic = panic

-- synchronizeGossip: the gossip, its error, "not hasAll", and the cache
pub record Synced (s : Stores) : Type 0 where
  pub gossip : Gossip
  pub error : Option Error
  pub add_to_chan : Bool
  pub cache : s.Cache

module _ (s : Stores) (x : External) (me : Delegate) (remote : Node → Json → Reply)
    (now : Moment) where
  -- Once the node is known to have the gossip: what it answered, or the error of the cache.
  abbrev pub noted : Gossip → s.Cache → Result s.Cache → Result Gossip × s.Cache
  noted g c (ok c') = (ok g, c')
  noted g c (err e) = (err e, c)
  noted g c panic = (panic, c)

  unfoldable pub received : Gossip → Node → Result Gossip → s.Cache → Result Gossip × s.Cache
  received gossip node (ok g) c =
      noted g c (cache_sent_delegate s gossip.transaction.hash node.address c)
  received gossip node (err e) c = (err e, c)
  received gossip node panic c = (panic, c)

  unfoldable pub answered : Gossip → Node → Reply → s.Cache → Result Gossip × s.Cache
  unfolding cache_node received
  answered gossip node (no_connection e) c = (err e, c)
  answered gossip node (call_failed e) c = (
    err e,
    cache_node s (record node { status = status_text node_unavailable; status_time = now.nanos }) c,
  )
  answered gossip node (response j) c = received gossip node (Gossip.from_json x now.millis j) c

  -- peerGossipGrpc: its result, and the cache. A node that cannot be called is marked in the cache;
  -- the transaction that it is persisted in is discarded.
  unfoldable pub peer_gossip : Node → Gossip → s.Cache → Result Gossip × s.Cache
  unfolding answered
  peer_gossip node gossip c = answered gossip node (remote node (Gossip.marshal x gossip)) c

  unfoldable pub after_call : Result Gossip × s.Cache → Result s.Cache
  after_call (panic, c) = panic
  after_call (_, c) = ok c

  abbrev pub call_if : Bool → Gossip → Node → s.Cache → Result s.Cache
  call_if true gossip n c = after_call (peer_gossip n gossip c)
  call_if false gossip n c = ok c

  -- The loop of cacheOnFirstReceive over the delegates.
  unfoldable pub tell_all : Gossip → List Node → s.Cache → Result s.Cache
  unfolding after_call
  tell_all gossip [] c = ok c
  tell_all gossip (n ∷ nodes) c = do
    sent ← have_sent s c gossip.transaction.hash n.address
    c' ← call_if (not sent && not (n.address =ₛ me.this_node)) gossip n c
    tell_all gossip nodes c'

  -- cacheOnFirstReceive, with the delegates that ToNodesByTypeFromCache finds
  unfoldable pub cache_on_first_receive : Gossip → List Node → s.Cache → Result s.Cache
  cache_on_first_receive gossip delegates c = tell_all gossip delegates (
      cache_transaction s x gossip.transaction
        (cache_gossip s gossip (cache_receipt s (new_receipt gossip.transaction.hash now.nanos) c)))

  -- The cached gossip is held by pointer: it has the rumors that are appended to it.
  write_through : Result Gossip → Gossip → s.Cache → s.Cache
  write_through (ok ours) g c = cache_gossip s g c
  write_through _ g c = c

  -- A first rumor of our own, if the transaction verifies
  unfoldable pub join_in :
      Gossip
      → Result (Unit {0})
      → Gossip
      → Bool
      → List Node
      → Result Gossip
      → s.Cache
      → Result (Synced s)
  unfolding write_through
  join_in gossip (ok u) synced has_all delegates cached c = do
    r ← own_rumor (new_rumor x me.private_key me.address gossip.transaction.hash now.millis)
    let g : Gossip = record synced { rumors = synced.rumors ++ r ∷ [] }
    c' ← cache_on_first_receive g delegates c
    ok (record { gossip = g; error = none; add_to_chan = not has_all; cache = c' })
  join_in gossip (err e) synced has_all delegates cached c = ok (record {
    gossip = synced;
    error = some e;
    add_to_chan = true;
    cache = write_through cached synced c;
  })
  join_in gossip panic synced has_all delegates cached c = panic

  -- "Did rumor?"
  unfoldable pub joined :
      Bool → Gossip → Gossip → Bool → List Node → Result Gossip → s.Cache → Result (Synced s)
  unfolding write_through
  joined true gossip synced has_all delegates cached c = ok (record {
    gossip = synced;
    error = none;
    add_to_chan = not has_all;
    cache = write_through cached synced c;
  })
  joined false gossip synced has_all delegates cached c =
      join_in gossip (Signing.verify x gossip.transaction) synced has_all delegates cached c

  unfoldable pub synchronize_with : Gossip → List Node → Result Gossip → s.Cache → Result (Synced s)
  synchronize_with gossip delegates cached c = do
    (has_all, synced) ← merged x gossip cached
    joined (contains_rumor synced me.address) gossip synced has_all delegates cached c

  unfoldable pub synchronize_gossip : Gossip → List Node → s.Cache → Result (Synced s)
  unfolding synchronize_with
  synchronize_gossip gossip delegates c =
      synchronize_with gossip delegates (to_gossip_from_cache s c gossip.transaction.hash) c

  -- GossipGrpc, of a gossip that was decoded: the response, what goes into gossipChan (the gossip as
  -- the peer has sent it), and the cache. A gossip that is new to us is the one that is synchronized.
  pub record Answer : Type 0 where
    pub reply : Result Gossip
    pub to_chan : List Gossip
    pub cache : s.Cache

  sent_on : Gossip → Result Gossip → Gossip → Gossip
  sent_on gossip (ok ours) synced = gossip
  sent_on gossip _ synced = synced

  replied : Gossip → Result Gossip → Synced s → Answer
  unfolding sent_on
  replied gossip cached r = elim r.error [
    | some e ↦ record { reply = err e; to_chan = []; cache = r.cache }
    | none ↦ record {
      reply = ok r.gossip;
      to_chan = if r.add_to_chan then sent_on gossip cached r.gossip ∷ [] else [];
      cache = r.cache;
    }
  ]

  unfoldable pub gossip_grpc : Gossip → List Node → s.Cache → Result Answer
  unfolding replied synchronize_gossip
  gossip_grpc gossip delegates c = do
    r ← synchronize_gossip gossip delegates c
    ok (replied gossip (to_gossip_from_cache s c gossip.transaction.hash) r)
