-- ===== src/Heap/Places.antt =====
-- The places of a heap (commons/queue/priority_queue.go): what Swap and Less do to them.
use mathlib.Core.Logic.{◌≢◌}
use disgo.Prelude.{
  ℕ, zero, suc, ◌<◌, ◌≡◌, refl, ◌∙◌, true, false, Option, none, some, List, [], ◌∷◌, ℤ, pos, ltb_ℤ,
  length, get_elem?, arith,
}
use disgo.Heap.{Item, set_elem, less, swap}

-- a ≤ b, as the heap tests it
unfoldable pub Le : ℤ → ℤ → Type 0
Le a b = ltb_ℤ b a ≡ false

pub le_refl : (a : ℤ) → Le a a
unfolding Le
le_refl a = ground arith

pub le_trans : (a b c : ℤ) → Le a b → Le b c → Le a c
unfolding Le
le_trans a b c h k = ground arith

pub le_of_lt : (a b : ℤ) → ltb_ℤ a b ≡ true → Le a b
unfolding Le
le_of_lt a b h = ground arith

pub le_of_not_lt : (a b : ℤ) → ltb_ℤ b a ≡ false → Le a b
unfolding Le
le_of_not_lt a b h = h

module _ {A : Type 0} where
  abbrev pub rank : Option (Item A) → ℤ
  rank none = pos 0
  rank (some x) = x.priority

  abbrev pub prio : List (Item A) → ℕ → ℤ
  prio l i = rank (get_elem? l i)

  pub in_range :
      (l : List (Item A)) (i : ℕ) → i < length l → (x : Item A) × (get_elem? l i ≡ some x)
  in_range [] i h = absurd (omega arith)
  in_range (x ∷ l) zero h = (x, refl)
  in_range (x ∷ l) (suc i) h = in_range l i (omega arith)

  pub less_lem :
      (l : List (Item A)) (i j : ℕ)
      → i < length l
      → j < length l
      → less l i j ≡ ltb_ℤ (prio l i) (prio l j)
  unfolding less
  less_lem l i j h k = let (x, e) = in_range l i h in let (y, f) = in_range l j k in rw (e, f) refl

  get-set_same :
      (l : List (Item A)) (i : ℕ) (x : Item A)
      → i < length l
      → get_elem? (set_elem l i x) i ≡ some x
  get-set_same [] i x h = absurd (omega arith)
  get-set_same (y ∷ l) zero x h = refl
  get-set_same (y ∷ l) (suc i) x h = get-set_same l i x (omega arith)

  get-set_ne :
      (l : List (Item A)) (i k : ℕ) (x : Item A)
      → k ≢ i
      → get_elem? (set_elem l i x) k ≡ get_elem? l k
  get-set_ne [] i k x h = refl
  get-set_ne (y ∷ l) zero zero x h = absurd (h refl)
  get-set_ne (y ∷ l) zero (suc k) x h = refl
  get-set_ne (y ∷ l) (suc i) zero x h = refl
  get-set_ne (y ∷ l) (suc i) (suc k) x h = get-set_ne l i k x (omega arith)

  length-set_elem : (l : List (Item A)) (i : ℕ) (x : Item A) → length (set_elem l i x) ≡ length l
  length-set_elem [] i x = refl
  length-set_elem (y ∷ l) zero x = refl
  length-set_elem (y ∷ l) (suc i) x = omega (arith, length-set_elem l i x)

  module _ (l : List (Item A)) (i j : ℕ) (h : i < length l) (k : j < length l) where
    pub get-swap_right : get_elem? (swap l i j) j ≡ get_elem? l i
    unfolding swap
    get-swap_right =
        let (x, e) = in_range l i h in
        let (y, f) = in_range l j k in
        rw (e, f) (get-set_same (set_elem l i y) j x (omega (arith, length-set_elem l i y)))

    pub get-swap_left : i ≢ j → get_elem? (swap l i j) i ≡ get_elem? l j
    unfolding swap
    get-swap_left ne =
        let (x, e) = in_range l i h in
        let (y, f) = in_range l j k in
        rw (e, f) (get-set_ne (set_elem l i y) j i x ne ∙ get-set_same l i y h)

    pub get-swap_else : (n : ℕ) → n ≢ i → n ≢ j → get_elem? (swap l i j) n ≡ get_elem? l n
    unfolding swap
    get-swap_else n ne_i ne_j =
        let (x, e) = in_range l i h in
        let (y, f) = in_range l j k in
        rw (e, f) (get-set_ne (set_elem l i y) j n x ne_j ∙ get-set_ne l i n y ne_i)
