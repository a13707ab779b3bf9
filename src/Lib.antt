-- ===== src/Lib.antt =====
-- Disgo is a delegated-proof-of-stake node in Go. Transactions (commons/types/transaction.go)
-- reach a delegate, which gossips about them with signed rumors (commons/types/rumor.go,
-- gossip.go); a transaction that enough delegates have seen is executed on the accounts of its
-- sender and receiver and stored with a receipt (dapos/dapos_handshake.go).
--
-- Prelude has what the other modules share: Boolean tests, slices, int64 with its wrap-around and
-- its passage through float64 (Prelude/Int), and texts as bytes with hex and decimal forms
-- (Prelude/Text).
--
-- Crypto is commons/crypto/crypto.go. Keccak, the curve and the text form of instants are fields
-- of the record External; Crypto/Laws says what is relied on: digests of 32 bytes, and a key pair
-- whose signatures have 65 bytes, give back the public key, and verify. Crypto/Toy is an instance
-- with these laws.
--
-- Types is commons/types. A record for each struct, with UnmarshalJSON as `from_json` and
-- MarshalJSON as `marshal` on trees of JSON (Types/Json): a number is an integer, and passes
-- through float64 where the code asserts one; a type assertion that fails is the result `panic`.
-- Types/Errors has the error values and the result type. Types/Transaction/Signing has NewHash,
-- NewSignature, Verify and the constructors.
--
-- Store is what the types do with badger and go-cache: the interface `Stores`, its laws
-- (Store/Defs), an instance as association lists (Store/Assoc), and the methods Cache, Persist,
-- Set, Unset and the loading functions (Store/Records). Entries do not expire in the model: the
-- time to live that badger and the cache are given is not modelled.
--
-- Sorting is commons/types/transaction_sorter.go, with an insertion sort for sort.Sort.
-- Store/Paging has the functions that list transactions, accounts and gossip in pages, as loops
-- over what badger iterates; an entry's value is read without an error. Store/Paging/Timeline is
-- TransactionPaging, over the index by time.
--
-- Types/Authentication and Store/Records/Authenticity are commons/types/authentication.go, with
-- the time of Verify as an argument.
--
-- Dapos/Execute is executeTransaction and processDVMResult as a handler that may return early
-- (Dapos/Run): `steps` from the first account on, `run_type` for the switch, `save` from the
-- persistence of the transaction on. The virtual machine is the parameter `Dvm`. The lock of the
-- hash makes one execution of a hash atomic; executions are functions from state to state. An
-- object that the cache holds by pointer is written back to it where the code changes it.
--
-- Dapos/Peers is peerGossipGrpc, GossipGrpc, cacheOnFirstReceive and synchronizeGossip: a remote
-- call is a function from the node and the payload to a reply. Dapos/Gossip is startGossiping and
-- getRandomDelegate, Dapos/Worker is gossipWorker and doWork, for one message each. The state is
-- the cache, the messages in gossipChan, the queue and the timers that were started. The queue is
-- an interface, GossipQueue; the delegates that the cache lists and the random numbers are
-- arguments. ValidateTimeDelta (Types/Rumor/TimeDelta) sorts the rumors in place; the message
-- keeps that order, and a cached object that shares the slice does not in the model.
--
-- Dapos/Api is dapos/dapos_api.go: an answer has the status, its text and the payload; whether
-- this node is a delegate is an argument. Dapos/Api/Pending follows a transaction from
-- NewTransaction to the handlers that ask for it.
--
-- Dapos/Synchronize is the copying of a peer's database, SynchronizeGrpc and peerSynchronize;
-- each call sees one state of the peer's database, and an entry's value is read without an error.
-- The rounds are on fuel, with a theorem on how much is enough.
--
-- Dapos/Steps is a run of a delegate as a step relation: the calls of clients and of peers, and
-- the messages of the channels, in any order, each as one step, though the code starts a
-- goroutine for a message of gossipChan. What fails with a panic is no step; the delegates that a
-- step sees are any.
--
-- Dapos/Genesis is createGenesisTransactionAndAccount of dapos/dapos_service.go, with the
-- configuration's transaction as an argument.
--
-- Disgover is disgover/disgover_transport_grpc.go and disgover_service.go: the messages and whom
-- a node believes, Disgover/Seed the handler of pings, Disgover/Peers what a node sends and how
-- it starts. Dialling, the calls and the writing of files are arguments; Store/Records/Nodes is
-- how nodes are kept.
--
-- Merkle is commons/tree/merkle_tree.go, with the fuel of buildIntermediate as many levels as
-- there are leafs.
--
-- Kmutex is commons/utils/kmutex.go, with the turns of the threads as a step relation; its
-- exclusion is what lets an execution be a function of the state.
--
-- Heap is commons/queue/priority_queue.go over container/heap, and Queue is
-- commons/queue/gossip_queue.go with exists_map.go: the queue that the worker of Dapos/Worker
-- pops from. Queue/Transactions and Queue/Receipts are transaction_queue.go and receipt_queue.go.
--
-- Events is commons/utils/events.go, with the handlers that are started as the result of a run,
-- and an operation as the list of its sections under the lock; a section is one step there.
--
-- Dapos/Ledger is the abstract view: a balance for every address, and the payment of an amount.
--
-- Besides the tree of hashes, fuel bounds the loops up and down of the heap (the place halves or
-- doubles at each turn, and as many turns as there are places are given, which Heap/Order shows
-- to be enough), the decimal form of an integer (20 digits for 64 bits) and the exponent of a
-- float64 (256 steps for the 256 bits of a contract's numbers).
--
-- Not modelled: the transports, the start-up, key files and logging, which are I/O; the copies of
-- go-ethereum (dvm/ethereum) and libsecp256k1 (commons/crypto/secp256k1), whose calls are
-- parameters; and the parts of the node that have no file here yet, such as the virtual machine's
-- service.
pub mod Crypto
pub mod Dapos
pub mod Disgover
pub mod Events
pub mod Heap
pub mod Kmutex
pub mod Merkle
pub mod Prelude
pub mod Queue
pub mod Sorting
pub mod Store
pub mod Types
