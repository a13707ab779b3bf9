-- ===== src/Store/Records/Nodes.antt =====
-- Cache, Persist, Set and Unset of commons/types/node.go, and how nodes are found again.
use disgo.Prelude.{Bool, true, false, Option, none, some, List, [], ◌∷◌, ◌++◌}
use disgo.Prelude.Text.{Bytes, codes, ◌=ₛ◌, has_prefix}
use disgo.Crypto.{External}
use disgo.Types.Errors.{Error, Result, ok, err, panic, ◌>>=◌, not_found}
use disgo.Types.Node
use disgo.Types.Node.{Node}
use disgo.Store.Defs.{Value, json, text, Cached, Stores}
use disgo.Store.Records.{decode}

-- A key as text; the entries of types hold nothing else, and no node has a JSON text for its key.
abbrev pub bytes_of : Value → Bytes
bytes_of (text k) = k
bytes_of (json j) = []

abbrev pub type_prefix : Bytes → Bytes
type_prefix type = codes "key-node-type-" ++ type

abbrev pub add_node : Result Node → Result (List Node) → Result (List Node)
add_node (ok n) rest = rest >>= λ l. ok (n ∷ l)
add_node (err e) rest = rest
add_node panic rest = panic

abbrev pub key_if : Bool → Cached → Result (List Bytes) → Result (List Bytes)
key_if false v rest = rest
key_if true (Cached.text k) rest = rest >>= λ keys. ok (k ∷ keys)
key_if true _ rest = panic

-- The node of an entry, once for each time that its key was found.
abbrev pub nodes_if : Bool → Cached → Result (List Node) → Result (List Node)
nodes_if false v rest = rest
nodes_if true (Cached.node n) rest = rest >>= λ l. ok (n ∷ l)
nodes_if true _ rest = panic

module _ (s : Stores) where
  -- Cache
  unfoldable pub cache_node : Node → s.Cache → s.Cache
  cache_node n c =
      s.cache_set (s.cache_set c (Node.key n.address) (Cached.node n)) (Node.type_key n)
        (Cached.text (Node.key n.address))

  abbrev as_node : Option Cached → Result Node
  as_node none = err not_found
  as_node (some (Cached.node n)) = ok n
  as_node (some _) = panic

  -- ToNodeFromCache
  unfoldable pub to_node_from_cache : s.Cache → Bytes → Result Node
  to_node_from_cache c address = as_node (s.cache_get c (Node.key address))

  -- The first loop of ToNodesByTypeFromCache: the keys of the nodes.
  unfoldable pub type_keys : Bytes → List (Bytes × Cached) → Result (List Bytes)
  type_keys type [] = ok []
  type_keys type ((k, v) ∷ items) =
      key_if (has_prefix (type_prefix type) k) v (type_keys type items)

  unfoldable pub nodes_at : Bytes → Cached → List Bytes → Result (List Node) → Result (List Node)
  nodes_at i v [] rest = rest
  nodes_at i v (key ∷ keys) rest = nodes_if (i =ₛ key) v (nodes_at i v keys rest)

  -- The second loop: the entries under those keys.
  unfoldable pub nodes_under : List Bytes → List (Bytes × Cached) → Result (List Node)
  nodes_under keys [] = ok []
  nodes_under keys ((i, v) ∷ items) = nodes_at i v keys (nodes_under keys items)

  -- ToNodesByTypeFromCache
  unfoldable pub to_nodes_by_type_from_cache : s.Cache → Bytes → Result (List Node)
  to_nodes_by_type_from_cache c type = do
    keys ← type_keys type (s.cache_items c)
    nodes_under keys (s.cache_items c)

module _ (s : Stores) (x : External) where
  written :
      s.Txn → Result s.Txn → (s.Txn → Result (s.Txn × Option Error)) → Result (s.Txn × Option Error)
  written txn (ok u) next = next u
  written txn (err e) next = ok (txn, some e)
  written txn panic next = panic

  -- Persist: how far the transaction got, and the error that it stopped at.
  unfoldable pub persist_node : Node → s.Txn → Result (s.Txn × Option Error)
  unfolding written
  persist_node n txn =
      written txn (s.txn_set txn (Node.key n.address) (json (Node.marshal x n))) λ txn₁.
        written txn₁ (s.txn_set txn₁ (Node.type_key n) (text (Node.key n.address)))
          λ txn₂. ok (txn₂, none)

  -- Set: the cache first, whatever becomes of the transaction.
  unfoldable pub set_node : Node → s.Txn → s.Cache → s.Cache × Result (s.Txn × Option Error)
  set_node n txn c = (cache_node s n c, persist_node n txn)

  -- Unset, which leaves the entry of the type.
  unfoldable pub unset_node : Node → s.Txn → s.Cache → s.Cache × Result s.Txn
  unset_node n txn c =
      (s.cache_delete c (Node.key n.address), s.txn_delete txn (Node.key n.address))

  -- ToNodeByKey, and ToNodeByAddress
  unfoldable pub to_node_by_key : s.Txn → Bytes → Result Node
  to_node_by_key txn k = do v ← s.txn_get txn k; decode (Node.from_json x) v

  unfoldable pub to_node_by_address : s.Txn → Bytes → Result Node
  unfolding to_node_by_key
  to_node_by_address txn address = to_node_by_key txn (Node.key address)

  -- The loop of ToNodesByType: a node that cannot be loaded is left out.
  unfoldable pub load_nodes : s.Txn → List (Bytes × Value) → Result (List Node)
  load_nodes txn [] = ok []
  load_nodes txn ((k, v) ∷ items) =
      add_node (to_node_by_key txn (bytes_of v)) (load_nodes txn items)

  -- ToNodesByType
  unfoldable pub to_nodes_by_type : s.Txn → Bytes → Result (List Node)
  to_nodes_by_type txn type = load_nodes txn (s.iterate txn (type_prefix type) (type_prefix type))
