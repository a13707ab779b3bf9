-- ===== src/Merkle.antt =====
-- commons/tree/merkle_tree.go: the tree of hashes over a list of contents.
pub mod Soundness
mod Tests
use disgo.Prelude.{
  ℕ, zero, suc, ◌%◌, Bool, true, false, ◌&&◌, List, [], ◌∷◌, ◌++◌, Option, none, some, length, ◌==◌,
  if◌then◌else◌,
}
use disgo.Prelude.Text.{Bytes, ◌=ₛ◌}

-- MerkleTreeContent, and crypto/sha256
pub record Contents : Type 1 where
  pub Content : Type 0
  pub calculate_hash : Content → Bytes
  pub equals : Content → Content → Bool
  pub sha256 : Bytes → Bytes

module _ (i : Contents) where
  -- Node, seen from the root: its parents are the nodes above. A node that is its own sibling stands
  -- on both sides.
  pub data Node : Type 0 where
    leaf : (hash : Bytes) → (content : i.Content) → (dup : Bool) → Node
    inner : (hash : Bytes) → (left right : Node) → Node

  -- node.Hash
  unfoldable pub hash_of : Node → Bytes
  hash_of (leaf h c d) = h
  hash_of (inner h l r) = h

  -- verifyNode
  unfoldable pub verify_node : Node → Bytes
  verify_node (leaf h c d) = i.calculate_hash c
  verify_node (inner h l r) = i.sha256 (verify_node l ++ verify_node r)

  -- calculateNodeHash
  unfoldable pub calculate_node_hash : Node → Bytes
  unfolding hash_of
  calculate_node_hash (leaf h c d) = i.calculate_hash c
  calculate_node_hash (inner h l r) = i.sha256 (hash_of l ++ hash_of r)

  new_leaf : Bool → i.Content → Node
  new_leaf dup c = leaf (i.calculate_hash c) c dup

  -- The leafs of buildWithContent: where their number is odd, the last one twice.
  unfoldable pub leafs : List i.Content → List Node
  unfolding new_leaf
  leafs [] = []
  leafs (c ∷ []) = new_leaf false c ∷ new_leaf true c ∷ []
  leafs (c ∷ d ∷ cs) = new_leaf false c ∷ new_leaf false d ∷ leafs cs

  join : Node → Node → Node
  unfolding hash_of
  join l r = inner (i.sha256 (hash_of l ++ hash_of r)) l r

  -- The loop of buildIntermediate: the level above.
  unfoldable pub level : List Node → List Node
  unfolding join
  level [] = []
  level (n ∷ []) = join n n ∷ []
  level (n ∷ m ∷ nl) = join n m ∷ level nl

  -- buildIntermediate, on fuel
  unfoldable pub build : ℕ → List Node → Option Node
  unfolding join level
  build zero nl = none
  build (suc k) [] = none
  build (suc k) (n ∷ []) = build k (join n n ∷ [])
  build (suc k) (n ∷ m ∷ []) = some (join n m)
  build (suc k) (n ∷ m ∷ o ∷ nl) = build k (level (n ∷ m ∷ o ∷ nl))

  -- MerkleTree
  pub record Tree : Type 0 where
    pub root : Node
    pub merkle_root : Bytes
    pub leafs : List Node

  tree_of : List Node → Option Node → Option Tree
  unfolding hash_of
  tree_of leafs none = none
  tree_of leafs (some root) =
      some (record { root = root; merkle_root = hash_of root; leafs = leafs })

  -- NewTree and RebuildTreeWith: `none` is the error of no content. As many levels as there are
  -- leafs are enough.
  unfoldable pub new_tree : List i.Content → Option Tree
  unfolding tree_of
  new_tree cs = let l = leafs cs in tree_of l (build (length l) l)

  content_of : List Node → List i.Content
  content_of [] = []
  content_of (leaf h c d ∷ nl) = c ∷ content_of nl
  content_of (inner h l r ∷ nl) = content_of nl

  -- RebuildTree, of the contents of the leafs
  unfoldable pub rebuild_tree : Tree → Option Tree
  unfolding content_of new_tree
  rebuild_tree t = new_tree (content_of t.leafs)

  -- VerifyTree
  unfoldable pub verify_tree : Tree → Bool
  verify_tree t = t.merkle_root =ₛ verify_node t.root

  -- A node on the way from the leaf to the root
  abbrev checks : Bytes → Node → Node → Bool → Bool
  checks h l r below = below && (i.sha256 (calculate_node_hash l ++ calculate_node_hash r) =ₛ h)

  abbrev or_else : Option Bool → Option Bool → Option Bool
  or_else (some b) o = some b
  or_else none o = o

  abbrev map_checks : Bytes → Node → Node → Option Bool → Option Bool
  map_checks h l r none = none
  map_checks h l r (some b) = some (checks h l r b)

  -- From the first leaf with the content up to the root, if there is such a leaf
  unfoldable pub verify_path : i.Content → Node → Option Bool
  unfolding calculate_node_hash
  verify_path c (leaf h d dup) = if i.equals d c then some true else none
  verify_path c (inner h l r) = map_checks h l r (or_else (verify_path c l) (verify_path c r))

  abbrev found : Option Bool → Bool
  found none = false
  found (some b) = b

  -- VerifyContent, whose argument expectedMerkleRoot is not used
  unfoldable pub verify_content : Tree → Bytes → i.Content → Bool
  verify_content t expected c = found (verify_path c t.root)
