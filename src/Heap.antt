-- ===== src/Heap.antt =====
-- container/heap over commons/queue/priority_queue.go: items with priorities, the least first. The
-- index that Swap keeps in the items is read by Update alone, which is not called, and is left out.
pub mod Weight
pub mod Places
pub mod Order
mod Tests
use disgo.Prelude.{
  ℕ, zero, suc, ◌+◌, ◌-◌, ◌*◌, ◌/◌, Bool, true, false, ◌&&◌, Option, none, some, List, [], ◌∷◌,
  ◌++◌, ℤ, pos, negsuc, ltb_ℤ, ltb, leb, ◌==◌, length, get_elem?, take, if◌then◌else◌,
}
use disgo.Types.Errors.{Result, ok, panic}

pub record Item (A : Type 0) : Type 0 where
  pub value : A
  pub priority : ℤ

module _ {A : Type 0} where
  -- Less
  abbrev pub less_items : Option (Item A) → Option (Item A) → Bool
  less_items (some a) (some b) = ltb_ℤ a.priority b.priority
  less_items _ _ = false

  unfoldable pub less : List (Item A) → ℕ → ℕ → Bool
  less l i j = less_items (get_elem? l i) (get_elem? l j)

  abbrev pub set_elem : List (Item A) → ℕ → Item A → List (Item A)
  set_elem [] i x = []
  set_elem (y ∷ l) zero x = x ∷ l
  set_elem (y ∷ l) (suc i) x = y ∷ set_elem l i x

  abbrev pub exchange : List (Item A) → ℕ → ℕ → Option (Item A) → Option (Item A) → List (Item A)
  exchange l i j (some a) (some b) = set_elem (set_elem l i b) j a
  exchange l i j _ _ = l

  -- Swap
  unfoldable pub swap : List (Item A) → ℕ → ℕ → List (Item A)
  swap l i j = exchange l i j (get_elem? l i) (get_elem? l j)

  -- up, on fuel: the place at least halves
  unfoldable pub up : ℕ → List (Item A) → ℕ → List (Item A)
  up zero l j = l
  up (suc k) l j =
      let i = (j - 1) / 2 in
      let next = up k (swap l i j) i in if (i == j) then l else if less l j i then next else l

  -- The smaller one of the two children
  unfoldable pub child : List (Item A) → ℕ → ℕ → ℕ
  child l i n = let j = 2 * i + 1 in if ltb (j + 1) n && less l (j + 1) j then j + 1 else j

  -- down, on fuel: the place at least doubles
  unfoldable pub down : ℕ → List (Item A) → ℕ → ℕ → List (Item A)
  down zero l i n = l
  down (suc k) l i n =
      let j = child l i n in
      let next = down k (swap l i j) j n in
      if leb n (2 * i + 1) then l else if less l j i then next else l

  -- heap.Push
  unfoldable pub push : List (Item A) → Item A → List (Item A)
  push l x = up (suc (length l)) (l ++ x ∷ []) (length l)

  unfoldable pub last_of : ℕ → List (Item A) → Option (Item A) → Result (Item A × List (Item A))
  last_of n l none = panic
  last_of n l (some x) = ok (x, take n l)

  -- heap.Pop: the first goes to the end, what came there goes down, and the end is cut off. On an
  -- empty heap it reads out of range.
  unfoldable pub pop : List (Item A) → Result (Item A × List (Item A))
  unfolding last_of
  pop [] = panic
  pop (y ∷ l) =
      let n = length l in
      let sunk = down (suc n) (swap (y ∷ l) 0 n) 0 n in last_of n sunk (get_elem? sunk n)

  -- Peek: the priority of the last item, or -1
  unfoldable pub peek : List (Item A) → ℤ
  peek l = elim (get_elem? l (length l - 1)) [ some x ↦ x.priority | none ↦ negsuc 0 ]
