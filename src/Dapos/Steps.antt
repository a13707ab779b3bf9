-- ===== src/Dapos/Steps.antt =====
-- The runs of a delegate: clients and peers that call it (NewTransaction of dapos/dapos_api.go,
-- GossipGrpc of dapos/dapos_transport_grpc.go), and the messages of its channels (gossipWorker and
-- transactionWorker of dapos/dapos_handshake.go), in any order, each at a moment of its own. Each
-- is one step, though gossipWorker starts a goroutine for a message, whose steps may lie between those
-- of another one.
pub mod Tracked
use disgo.Prelude.{ℕ, ◌≡◌, Bool, List, [], ◌∷◌, ◌++◌}
use disgo.Crypto.{External}
use disgo.Types.Errors.{ok}
use disgo.Types.Gossip.{Gossip}
use disgo.Types.Json.{Json}
use disgo.Types.Node.{Node}
use disgo.Types.Transaction.{Transaction}
use disgo.Store.{Stores}
use disgo.Queue.{gossip_queue, new_queue}
use disgo.Dapos.Dvm.{Dvm}
use disgo.Dapos.Peers.{Delegate, Reply, Moment, Answer, gossip_grpc}
use disgo.Dapos.Gossip.{GossipState, Response}
use disgo.Dapos.Worker.{NodeState, gossip_worker, do_work}
use disgo.Dapos.Api.{new_transaction}

module _ (s : Stores) (x : External) (v : Dvm s) (me : Delegate)
    (remote : Node → Json → Reply) where
  abbrev pub Running : Type 0
  Running = NodeState s gossip_queue

  -- A step that panics is none: the process ends.
  pub data Step : Running → Running → Type 0 where
    called :
        (now : Moment) (is_delegate : Bool) (t : Transaction) (delegates : List Node) (st : Running)
        (out : Response × GossipState s gossip_queue)
        → new_transaction s gossip_queue x me remote now is_delegate t delegates st.db st.gossip
          ≡ ok out
        → Step st (record st { gossip = out.1 })
    gossiped :
        (now : Moment) (g : Gossip) (delegates : List Node) (st : Running)
        (answer : Answer s x me remote now)
        → gossip_grpc s x me remote now g delegates st.gossip.cache ≡ ok answer
        → Step st (record st {
          gossip = record st.gossip {
            cache = answer.cache;
            chan = st.gossip.chan ++ answer.to_chan;
          };
        })
    received :
        (now : Moment) (intn : ℕ → ℕ) (g : Gossip) (rest : List Gossip) (delegates : List Node)
        (st : Running) (after : GossipState s gossip_queue)
        → st.gossip.chan ≡ g ∷ rest
        → gossip_worker s gossip_queue x me remote now intn g delegates
            (record st.gossip { chan = rest })
          ≡ ok after
        → Step st (record st { gossip = after })
    timed :
        (now : Moment) (is_bookkeeper : Bool) (st st' : Running)
        → do_work s gossip_queue x v is_bookkeeper now st ≡ ok st'
        → Step st st'

  -- What a delegate can come to, from a database and a cache and an empty queue on.
  pub data Reachable : Running → Type 0 where
    begun :
        (db : s.Db) (c : s.Cache)
        → Reachable (record {
          db = db;
          gossip = record { cache = c; chan = []; queue = new_queue; timers = [] };
        })
    next : (st st' : Running) → Reachable st → Step st st' → Reachable st'
