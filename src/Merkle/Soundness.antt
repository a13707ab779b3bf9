-- ===== src/Merkle/Soundness.antt =====
-- That a tree of commons/tree/merkle_tree.go verifies, and verifies its contents and no other.
use disgo.Prelude.{
  ℕ, zero, suc, ◌+◌, ◌/◌, ◌≤◌, ◌≡◌, refl, sym, ap, ◌∙◌, Bool, true, false, ◌||◌, List, [], ◌∷◌,
  ◌++◌, Option, none, some, All, length, arith, if◌then◌else◌,
}
use disgo.Prelude.Text.{Bytes, ◌=ₛ◌, =ₛ_refl}
use disgo.Merkle.{
  Contents, Node, leaf, inner, hash_of, verify_node, calculate_node_hash, new_leaf, leafs, join,
  level, build, Tree, tree_of, new_tree, verify_tree, verify_path, verify_content, found, or_else,
  map_checks,
}

module _ (i : Contents) where
  -- Every hash of the tree is the one of what is below it.
  abbrev IsWell : Node i → Type 0
  IsWell (leaf h c d) = h ≡ i.calculate_hash c
  IsWell (inner h l r) = (h ≡ i.sha256 (hash_of i l ++ hash_of i r)) × IsWell l × IsWell r

  verify_node_lem : (n : Node i) → IsWell n → verify_node i n ≡ hash_of i n
  unfolding verify_node hash_of
  verify_node_lem (leaf h c d) w = sym w
  verify_node_lem (inner h l r) (e, v, w) =
      ap (λ a. i.sha256 (a ++ verify_node i r)) (verify_node_lem l v)
      ∙ ap (λ a. i.sha256 (hash_of i l ++ a)) (verify_node_lem r w)
      ∙ sym e

  calculate_lem : (n : Node i) → IsWell n → calculate_node_hash i n ≡ hash_of i n
  unfolding calculate_node_hash hash_of
  calculate_lem (leaf h c d) w = sym w
  calculate_lem (inner h l r) (e, v, w) = sym e

  -- Whether a leaf has the content.
  abbrev has : i.Content → Node i → Bool
  has c (leaf h d dup) = i.equals d c
  has c (inner h l r) = has c l || has c r

  abbrev if_there : Bool → Option Bool
  if_there true = some true
  if_there false = none

  if_there_lem : (b : Bool) → (if b then some true else none) ≡ if_there b
  if_there_lem true = refl
  if_there_lem false = refl

  or_else_lem : (a b : Bool) → or_else i (if_there a) (if_there b) ≡ if_there (a || b)
  or_else_lem true b = refl
  or_else_lem false true = refl
  or_else_lem false false = refl

  checks_lem :
      (h : Bytes) (l r : Node i) (b : Bool)
      → (i.sha256 (calculate_node_hash i l ++ calculate_node_hash i r) =ₛ h) ≡ true
      → map_checks i h l r (if_there b) ≡ if_there b
  checks_lem h l r true e = ap some e
  checks_lem h l r false e = refl

  -- The way up from the first leaf with a content is in order.
  verify_path_lem : (c : i.Content) (n : Node i) → IsWell n → verify_path i c n ≡ if_there (has c n)
  unfolding verify_path
  verify_path_lem c (leaf h d dup) w = if_there_lem (i.equals d c)
  verify_path_lem c (inner h l r) (e, v, w) =
      let good : (i.sha256 (calculate_node_hash i l ++ calculate_node_hash i r) =ₛ h) ≡ true =
        rw (calculate_lem l v, calculate_lem r w, e)
          (=ₛ_refl (i.sha256 (hash_of i l ++ hash_of i r))) in
      rw (verify_path_lem c l v, verify_path_lem c r w, or_else_lem (has c l) (has c r))
        (checks_lem h l r (has c l || has c r) good)

  found_lem : (b : Bool) → found i (if_there b) ≡ b
  found_lem true = refl
  found_lem false = refl

  abbrev some_has : i.Content → List (Node i) → Bool
  some_has c [] = false
  some_has c (n ∷ nl) = has c n || some_has c nl

  -- Whether a content is among others.
  abbrev pub member : i.Content → List i.Content → Bool
  member c [] = false
  member c (d ∷ cs) = i.equals d c || member c cs

  -- A level has what the level below it has, and is in order if that is.
  level_lem :
      (nl : List (Node i))
      → All IsWell nl
      → All IsWell (level i nl) × ((c : i.Content) → some_has c (level i nl) ≡ some_has c nl)
  unfolding level join
  level_lem [] w = (tt, λ c. refl)
  level_lem (n ∷ []) (w, _) = (((refl, w, w), tt), λ c. ground arith)
  level_lem (n ∷ m ∷ nl) (w, (w', ws)) =
      let (rest, same) = level_lem nl ws in (((refl, w, w'), rest), λ c. ground (arith, same c))

  length-level : (nl : List (Node i)) → length (level i nl) ≡ (length nl + 1) / 2
  unfolding level
  length-level [] = omega arith
  length-level (n ∷ []) = omega arith
  length-level (n ∷ m ∷ nl) = omega (arith, length-level nl)

  -- With as much fuel as there are nodes, at least two, the root is built.
  build_lem :
      (k : ℕ) (nl : List (Node i))
      → 2 ≤ length nl
      → length nl ≤ k
      → All IsWell nl
      → (root : Node i) × (build i k nl ≡ some root)
        × IsWell root
        × ((c : i.Content) → has c root ≡ some_has c nl)
  unfolding build join
  build_lem zero nl two enough w = absurd (omega arith)
  build_lem (suc k) [] two enough w = absurd (omega arith)
  build_lem (suc k) (n ∷ []) two enough w = absurd (omega arith)
  build_lem (suc k) (n ∷ m ∷ []) two enough (w, (w', _)) =
      (join i n m, refl, (refl, w, w'), λ c. ground arith)
  build_lem (suc k) (n ∷ m ∷ o ∷ nl) two enough w =
      let (ws, same) = level_lem (n ∷ m ∷ o ∷ nl) w in
      let (root, e, v, has_all) =
        build_lem k (level i (n ∷ m ∷ o ∷ nl)) (omega (arith, length-level (n ∷ m ∷ o ∷ nl)))
          (omega (arith, length-level (n ∷ m ∷ o ∷ nl))) ws in
      (root, e, v, λ c. has_all c ∙ same c)

  leafs_lem :
      (cs : List i.Content)
      → All IsWell (leafs i cs) × ((c : i.Content) → some_has c (leafs i cs) ≡ member c cs)
  unfolding leafs new_leaf
  leafs_lem [] = (tt, λ c. refl)
  leafs_lem (c ∷ []) = ((refl, (refl, tt)), λ d. ground arith)
  leafs_lem (c ∷ d ∷ cs) =
      let (ws, same) = leafs_lem cs in ((refl, (refl, ws)), λ e. ground (arith, same e))

  leafs_two : (c : i.Content) (cs : List i.Content) → 2 ≤ length (leafs i (c ∷ cs))
  unfolding leafs
  leafs_two c [] = omega arith
  leafs_two c (d ∷ cs) = omega arith

  -- A tree of at least one content is built; it verifies; and it verifies a content exactly if the
  -- content is among those it was built of, whatever root is expected.
  pub new_tree-verify_content :
      (first : i.Content) (cs : List i.Content)
      → (t : Tree i) × (new_tree i (first ∷ cs) ≡ some t)
        × (verify_tree i t ≡ true)
        × ((c : i.Content) (expected : Bytes)
            → verify_content i t expected c ≡ member c (first ∷ cs))
  unfolding new_tree tree_of verify_tree verify_content
  new_tree-verify_content first cs =
      let l = leafs i (first ∷ cs) in
      let (ws, same) = leafs_lem (first ∷ cs) in
      let (root, e, w, has_all) = build_lem (length l) l (leafs_two first cs) (omega arith) ws in
      (
        record { root = root; merkle_root = hash_of i root; leafs = l },
        rw e,
        rw (verify_node_lem root w) (=ₛ_refl (hash_of i root)),
        λ c expected.
            ap (found i) (verify_path_lem c root w) ∙ found_lem (has c root) ∙ has_all c ∙ same c,
      )
