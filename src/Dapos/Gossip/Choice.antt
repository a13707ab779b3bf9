-- ===== src/Dapos/Gossip/Choice.antt =====
-- Whom getRandomDelegate of dapos/dapos_handshake.go chooses.
use disgo.Prelude.{
  subst, zero, ℕ, suc, ◌<◌, ◌≡◌, ◌≢◌, refl, sym, ap, ◌∙◌, Bool, true, false, not, ◌||◌, none, some,
  List, [], ◌∷◌, ◌⊎◌, inl, inr, All, Any, length, get_elem?, arith, if◌then◌else◌,
}
use disgo.Prelude.Text.{Bytes, ◌=ₛ◌}
use disgo.Types.Errors.{ok, >>=-eq-ok, ok-injective}
use disgo.Types.Gossip.{Gossip}
use disgo.Types.Node.{Node, is_available}
use disgo.Store.{Stores}
use disgo.Store.Records.{have_sent}
use disgo.Dapos.Peers.{Delegate, Moment}
use disgo.Dapos.Gossip.{candidates, get_random_delegate}

some_inj : {a b : Node} → some a ≡ some b → a ≡ b
some_inj e = cc

eligible_kept : (a b d : Bool) → (a || b || not d) ≡ true → a ≡ false → b ≡ false → d ≡ true → ⊥
eligible_kept a b d h e f g = ground arith

one : {A B C : Type 0} → A ⊎ B → (B → C) → A ⊎ C
one (inl a) f = inl a
one (inr b) f = inr (f b)

module _ (s : Stores) (me : Delegate) (now : Moment) (hash : Bytes) (c : s.Cache) where
  -- A delegate that may be told: another one, not told yet, and reachable.
  abbrev pub IsEligible : Node → Type 0
  IsEligible n =
      ((n.address =ₛ me.this_node) ≡ false)
      × (have_sent s c hash n.address ≡ ok false)
      × (is_available now.nanos n ≡ true)

  skipped : (a b d : Bool) → (a || b || not d) ≡ false → (a ≡ false) × (b ≡ false) × (d ≡ true)
  skipped a b d h = ground arith

  abbrev OneOf : List Node → Node → Type 0
  OneOf nodes n = IsEligible n × Any (λ m. m ≡ n) nodes

  more : (n : Node) (nodes l : List Node) → All (OneOf nodes) l → All (OneOf (n ∷ nodes)) l
  more n nodes [] h = tt
  more n nodes (m ∷ l) ((e, i), h) = ((e, inr i), more n nodes l h)

  kept-OneOf :
      (n : Node) (nodes rest : List Node) (sent b : Bool)
      → have_sent s c hash n.address ≡ ok sent
      → ((n.address =ₛ me.this_node) || sent || not (is_available now.nanos n)) ≡ b
      → All (OneOf nodes) rest
      → All (OneOf (n ∷ nodes)) (if b then rest else n ∷ rest)
  kept-OneOf n nodes rest sent true e f h = more n nodes rest h
  kept-OneOf n nodes rest sent false e f h =
      let (other, unsent, up) = skipped _ sent _ f in
      (((other, e ∙ ap ok unsent, up), inl refl), more n nodes rest h)

  candidates-OneOf :
      (nodes l : List Node) → candidates s me now hash nodes c ≡ ok l → All (OneOf nodes) l
  unfolding candidates
  candidates-OneOf [] l h = subst (All (OneOf [])) (ok-injective h) tt
  candidates-OneOf (n ∷ nodes) l h =
      let (sent, e, h₁) = >>=-eq-ok (have_sent s c hash n.address) _ h in
      let (rest, f, h₂) = >>=-eq-ok (candidates s me now hash nodes c) _ h₁ in
      subst (All (OneOf (n ∷ nodes))) (ok-injective h₂)
        (kept-OneOf n nodes rest sent _ e refl (candidates-OneOf nodes rest f))

  kept_some :
      (n : Node) (rest : List Node) (sent b : Bool)
      → have_sent s c hash n.address ≡ ok sent
      → ((n.address =ₛ me.this_node) || sent || not (is_available now.nanos n)) ≡ b
      → IsEligible n ⊎ (0 < length rest)
      → 0 < length (if b then rest else n ∷ rest)
  kept_some n rest sent false e f h = omega arith
  kept_some n rest sent true e f (inr h) = h
  kept_some n rest sent true e f (inl (other, unsent, up)) =
      absurd (eligible_kept _ sent _ f other (ok-injective (sym e ∙ unsent)) up)

  candidates_some :
      (nodes l : List Node)
      → candidates s me now hash nodes c ≡ ok l
      → Any IsEligible nodes
      → 0 < length l
  unfolding candidates
  candidates_some [] l h i = absurd i
  candidates_some (n ∷ nodes) l h i =
      let (sent, e, h₁) = >>=-eq-ok (have_sent s c hash n.address) _ h in
      let (rest, f, h₂) = >>=-eq-ok (candidates s me now hash nodes c) _ h₁ in
      subst (λ k. 0 < length k) (ok-injective h₂)
        (kept_some n rest sent _ e refl (one i (candidates_some nodes rest f)))

get_elem?-All :
    (P : Node → Type 0) (l : List Node) (i : ℕ) (n : Node) → All P l → get_elem? l i ≡ some n → P n
get_elem?-All P [] i n h e = cc
get_elem?-All P (m ∷ l) zero n h e = subst P (some_inj e) h.0
get_elem?-All P (m ∷ l) (suc i) n h e = get_elem?-All P l i n h.1 e

some_ne : {n : Node} → some n ≡ none → ⊥
some_ne e = cc

get_elem?_in : (l : List Node) (i : ℕ) → i < length l → get_elem? l i ≢ none
get_elem?_in [] i h e = ground arith
get_elem?_in (m ∷ l) zero h e = some_ne e
get_elem?_in (m ∷ l) (suc i) h e = get_elem?_in l i (omega arith) e

module _ (s : Stores) (me : Delegate) (now : Moment) (intn : ℕ → ℕ) (gossip : Gossip) where
  -- The chosen delegate is one of the delegates, another one than this node, one that has not been
  -- told of the transaction yet, and available.
  pub get_random_delegate-IsEligible :
      (delegates : List Node) (c : s.Cache) (n : Node)
      → get_random_delegate s me now intn gossip delegates c ≡ ok (some n)
      → IsEligible s me now gossip.transaction.hash c n × Any (λ m. m ≡ n) delegates
  unfolding get_random_delegate
  get_random_delegate-IsEligible delegates c n h =
      let (l, e, h₁) = >>=-eq-ok (candidates s me now gossip.transaction.hash delegates c) _ h in
      get_elem?-All _ l (intn (length l)) n
        (candidates-OneOf s me now gossip.transaction.hash c delegates l e) (ok-injective h₁)

  -- If nobody is chosen, nobody could be: with a random number below the bound that it is asked for,
  -- no delegate is eligible.
  pub get_random_delegate-none :
      (delegates : List Node) (c : s.Cache)
      → ((k : ℕ) → 0 < k → intn k < k)
      → get_random_delegate s me now intn gossip delegates c ≡ ok none
      → ¬ Any (IsEligible s me now gossip.transaction.hash c) delegates
  unfolding get_random_delegate
  get_random_delegate-none delegates c below h i =
      let (l, e, h₁) = >>=-eq-ok (candidates s me now gossip.transaction.hash delegates c) _ h in
      get_elem?_in l (intn (length l))
        (below (length l) (candidates_some s me now gossip.transaction.hash c delegates l e i))
        (ok-injective h₁)
