-- ===== src/Heap/Weight.antt =====
-- That the heap of commons/queue/priority_queue.go loses no item and makes none up.
use disgo.Prelude.{
  ℕ, zero, suc, ◌+◌, ◌-◌, ◌*◌, ◌/◌, ◌≡◌, refl, sym, ap, ◌∙◌, Bool, true, false, Option, none, some,
  List, [], ◌∷◌, ◌++◌, length, get_elem?, take, if◌then◌else◌, arith, leb, ◌==◌,
}
use disgo.Types.Errors.{ok, ok-injective}
use disgo.Heap.{Item, less, set_elem, exchange, swap, up, child, down, push, last_of, pop}

module _ {A : Type 0} (w : Item A → ℕ) where
  -- The sum of a weight over the items: with a test as weight, how many items pass it.
  abbrev pub weigh : List (Item A) → ℕ
  weigh [] = 0
  weigh (x ∷ l) = w x + weigh l

  weigh-append : (l : List (Item A)) (x : Item A) → weigh (l ++ x ∷ []) ≡ weigh l + w x
  weigh-append [] x = omega arith
  weigh-append (y ∷ l) x = omega (arith, weigh-append l x)

  some_weight : (x y : Item A) → some x ≡ some y → w x ≡ w y
  some_weight x y e = cc

  weigh-set_elem :
      (l : List (Item A)) (i : ℕ) (x y : Item A)
      → get_elem? l i ≡ some y
      → weigh (set_elem l i x) + w y ≡ weigh l + w x
  weigh-set_elem [] i x y e = cc
  weigh-set_elem (z ∷ l) zero x y e = omega (arith, some_weight z y e)
  weigh-set_elem (z ∷ l) (suc i) x y e = omega (arith, weigh-set_elem l i x y e)

  get_elem?-set_elem :
      (l : List (Item A)) (i j : ℕ) (b : Item A)
      → get_elem? l j ≡ some b
      → get_elem? (set_elem l i b) j ≡ some b
  get_elem?-set_elem [] i j b e = e
  get_elem?-set_elem (z ∷ l) zero zero b e = refl
  get_elem?-set_elem (z ∷ l) zero (suc j) b e = e
  get_elem?-set_elem (z ∷ l) (suc i) zero b e = e
  get_elem?-set_elem (z ∷ l) (suc i) (suc j) b e = get_elem?-set_elem l i j b e

  weigh-exchange :
      (l : List (Item A)) (i j : ℕ) (a b : Option (Item A))
      → get_elem? l i ≡ a
      → get_elem? l j ≡ b
      → weigh (exchange l i j a b) ≡ weigh l
  weigh-exchange l i j none b e f = refl
  weigh-exchange l i j (some a) none e f = refl
  weigh-exchange l i j (some a) (some b) e f = omega (
    arith,
    weigh-set_elem l i b a e,
    weigh-set_elem (set_elem l i b) j a b (get_elem?-set_elem l i j b f),
  )

  weigh-swap : (l : List (Item A)) (i j : ℕ) → weigh (swap l i j) ≡ weigh l
  unfolding swap
  weigh-swap l i j = weigh-exchange l i j _ _ refl refl

  -- One turn of a loop: it ends, or goes on with an exchange.
  weigh_turn :
      (ends goes : Bool) (l u : List (Item A))
      → weigh u ≡ weigh l
      → weigh (if ends then l else if goes then u else l) ≡ weigh l
  weigh_turn true goes l u e = refl
  weigh_turn false true l u e = e
  weigh_turn false false l u e = refl

  weigh-up : (k : ℕ) (l : List (Item A)) (j : ℕ) → weigh (up k l j) ≡ weigh l
  unfolding up
  weigh-up zero l j = refl
  weigh-up (suc k) l j =
      let i = (j - 1) / 2 in
      weigh_turn (i == j) (less l j i) l (up k (swap l i j) i)
        (weigh-up k (swap l i j) i ∙ weigh-swap l i j)

  weigh-down : (k : ℕ) (l : List (Item A)) (i n : ℕ) → weigh (down k l i n) ≡ weigh l
  unfolding down
  weigh-down zero l i n = refl
  weigh-down (suc k) l i n =
      let j = child l i n in
      weigh_turn (leb n (2 * i + 1)) (less l j i) l (down k (swap l i j) j n)
        (weigh-down k (swap l i j) j n ∙ weigh-swap l i j)

  pub weigh-push : (l : List (Item A)) (x : Item A) → weigh (push l x) ≡ weigh l + w x
  unfolding push
  weigh-push l x = weigh-up _ (l ++ x ∷ []) _ ∙ weigh-append l x

  weigh-take :
      (l : List (Item A)) (n : ℕ) (x : Item A)
      → length l ≡ suc n
      → get_elem? l n ≡ some x
      → weigh l ≡ w x + weigh (take n l)
  weigh-take [] n x h e = cc
  weigh-take (y ∷ []) zero x h e = omega (arith, some_weight y x e)
  weigh-take (y ∷ z ∷ l) zero x h e = absurd (omega arith)
  weigh-take (y ∷ l) (suc n) x h e = omega (arith, weigh-take l n x (omega arith) e)

  last_of-weigh :
      (n : ℕ) (l : List (Item A)) (o : Option (Item A)) (x : Item A) (rest : List (Item A))
      → length l ≡ suc n
      → get_elem? l n ≡ o
      → last_of n l o ≡ ok (x, rest)
      → weigh l ≡ w x + weigh rest
  unfolding last_of
  last_of-weigh n l none x rest h e f = cc
  last_of-weigh n l (some y) x rest h e f =
      let same = ok-injective f in
      weigh-take l n y h e ∙ ap (λ (q : Item A × List (Item A)). w q.0 + weigh q.1) same

pub length_as_weight : {A : Type 0} → (l : List (Item A)) → weigh (λ x. 1) l ≡ length l
length_as_weight [] = refl
length_as_weight (x ∷ l) = omega (arith, length_as_weight l)

module _ {A : Type 0} where
  pub length-down : (k : ℕ) (l : List (Item A)) (i n : ℕ) → length (down k l i n) ≡ length l
  length-down k l i n =
      sym (length_as_weight (down k l i n)) ∙ weigh-down (λ x. 1) k l i n ∙ length_as_weight l

  pub length-swap : (l : List (Item A)) (i j : ℕ) → length (swap l i j) ≡ length l
  length-swap l i j =
      sym (length_as_weight (swap l i j)) ∙ weigh-swap (λ x. 1) l i j ∙ length_as_weight l

  pub there :
      (l : List (Item A)) (n : ℕ) → length l ≡ suc n → (x : Item A) × (get_elem? l n ≡ some x)
  there [] n h = absurd (omega arith)
  there (x ∷ l) zero h = (x, refl)
  there (x ∷ l) (suc n) h = there l n (omega arith)

  -- What is pushed on a heap is there with all that was there before; and from a heap that is not
  -- empty one item is popped, and all others are left. Both hold for every weight of the items.
  pub push-pop :
      (w : Item A → ℕ) (l : List (Item A)) (x : Item A)
      → (weigh w (push l x) ≡ weigh w l + w x)
        × ((y : Item A) × (rest : List (Item A)) × (pop (x ∷ l) ≡ ok (y, rest))
            × (w x + weigh w l ≡ w y + weigh w rest))
  unfolding pop last_of
  push-pop w l x =
      let n = length l in
      let sunk = down (suc n) (swap (x ∷ l) 0 n) 0 n in
      let size : length sunk ≡ suc n = length-down (suc n) _ 0 n ∙ length-swap (x ∷ l) 0 n in
      let (y, e) = there sunk n size in
      let all : weigh w sunk ≡ w x + weigh w l =
        weigh-down w (suc n) _ 0 n ∙ weigh-swap w (x ∷ l) 0 n in
      (weigh-push w l x, (y, take n sunk, rw e, sym all ∙ weigh-take w sunk n y size e))
