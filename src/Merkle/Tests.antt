-- ===== src/Merkle/Tests.antt =====
-- A tree of commons/tree/merkle_tree.go over three texts.
use disgo.Prelude.{ℕ, ◌%◌, ◌≡◌, true, List, [], ◌∷◌, some, length}
use disgo.Prelude.Text.{Bytes, codes, ◌=ₛ◌}
use disgo.Merkle.{Contents, Tree, new_tree, verify_tree, verify_content}
use disgo.Merkle.Soundness.{member, new_tree-verify_content}

-- A hash of four bytes: of the length and of the first bytes.
first_byte : Bytes → ℕ
first_byte [] = 0
first_byte (b ∷ s) = b

abbrev texts : Contents
texts = record {
  Content = Bytes;
  calculate_hash = λ t. length t % 256 ∷ first_byte t ∷ [];
  equals = λ a b. a =ₛ b;
  sha256 = λ b. length b % 256 ∷ first_byte b ∷ 7 ∷ [];
}

abbrev three : List Bytes
three = codes "b" ∷ codes "c" ∷ []

new_tree-verify_content_example :
    (t : Tree texts) × (new_tree texts (codes "a" ∷ three) ≡ some t)
    × (verify_tree texts t ≡ true)
    × ((c expected : Bytes)
        → verify_content texts t expected c ≡ member texts c (codes "a" ∷ three))
new_tree-verify_content_example = new_tree-verify_content texts (codes "a") three
