-- ===== src/Kmutex/Exclusion.antt =====
-- Mutual exclusion of commons/utils/kmutex.go.
use mathlib.Core.Bool.{false≢true}
use disgo.Prelude.{
  ℕ, ◌≡◌, refl, sym, ap, ◌∙◌, subst, Bool, true, false, not, ◌&&◌, ◌||◌, List, [], ◌∷◌, ◌++◌, none,
  some, if◌then◌else◌, Bool-cases, inl, inr, arith,
}
use disgo.Prelude.Text.{Bytes, ◌=ₛ◌, =ₛ_iff}
use disgo.Kmutex.{locked, lock, unlock, broadcast, Locks, Step, Reachable}

-- Whether somebody holds the key.
unfoldable pub has_key : List (ℕ × Bytes) → Bytes → Bool
has_key [] k = false
has_key ((t, j) ∷ held) k = if j =ₛ k then true else has_key held k

-- No key is held twice.
abbrev Distinct : List (ℕ × Bytes) → Type 0
Distinct [] = Unit
Distinct ((t, k) ∷ held) = (has_key held k ≡ false) × Distinct held

has_key-append :
    (a b : List (ℕ × Bytes)) (k : Bytes) → has_key (a ++ b) k ≡ (has_key a k || has_key b k)
unfolding has_key
has_key-append [] b k = refl
has_key-append ((t, j) ∷ a) b k = ground (arith, has_key-append a b k)

-- The invariant: the map has the keys that are held, and each is held once.
pub record IsConsistent (s : Locks) : Type 0 where
  pub same : (k : Bytes) → locked s.keys k ≡ has_key s.held k
  pub once : Distinct s.held

-- What is known of three keys by their tests.
pub same_test : (i k j : Bytes) → (i =ₛ k) ≡ true → (i =ₛ j) ≡ (k =ₛ j)
same_test i k j e = ap (λ (l : Bytes). l =ₛ j) ((=ₛ_iff i k).0 e)

pub other_test : (i k j : Bytes) → (i =ₛ k) ≡ false → (i =ₛ j) ≡ true → (k =ₛ j) ≡ false
other_test i k j e f = elim (Bool-cases (k =ₛ j)) [
  | inl g ↦ absurd (false≢true (sym e ∙ (=ₛ_iff i k).1 ((=ₛ_iff i j).0 f ∙ sym ((=ₛ_iff k j).0 g))))
  | inr g ↦ g
]

locked-unlock :
    (keys : List Bytes) (k j : Bytes) → locked (unlock keys k) j ≡ (not (k =ₛ j) && locked keys j)
unfolding locked unlock
locked-unlock [] k j = ground arith
locked-unlock (i ∷ keys) k j =
    ground (arith, same_test i k j, other_test i k j, locked-unlock keys k j)

lock-eq-some :
    (keys : List Bytes) (k : Bytes) (b : Bool) {l : List Bytes}
    → locked keys k ≡ b
    → (if b then none else some (k ∷ keys)) ≡ some l
    → (locked keys k ≡ false) × (l ≡ k ∷ keys)
lock-eq-some keys k true e h = cc
lock-eq-some keys k false e h = (e, cc)

locks-IsConsistent :
    (s : Locks) (t : ℕ) (k : Bytes) (keys : List Bytes)
    → IsConsistent s
    → lock s.keys k ≡ some keys
    → IsConsistent (record s { keys = keys; held = (t, k) ∷ s.held })
unfolding lock locked has_key
locks-IsConsistent s t k keys i h =
    let (new, e) = lock-eq-some s.keys k _ refl h in
    record {
      same = λ j. rw e (ap (λ (b : Bool). if k =ₛ j then true else b) (i.same j));
      once = (sym (i.same k) ∙ new, i.once);
    }

apart :
    (a b : List (ℕ × Bytes)) (t : ℕ) (k j : Bytes)
    → has_key (a ++ (t, k) ∷ b) j ≡ false
    → ((k =ₛ j) ≡ false) × (has_key (a ++ b) j ≡ false)
unfolding has_key
apart a b t k j h = ground (arith, h, has_key-append a ((t, k) ∷ b) j, has_key-append a b j)

other_test_sym : (k j : Bytes) → (k =ₛ j) ≡ false → (j =ₛ k) ≡ false
other_test_sym k j e = elim (Bool-cases (j =ₛ k)) [
  | inl g ↦ absurd (false≢true (sym e ∙ (=ₛ_iff k j).1 (sym ((=ₛ_iff j k).0 g))))
  | inr g ↦ g
]

still_held :
    (keys : List Bytes) (t : ℕ) (k j : Bytes) (a b : List (ℕ × Bytes))
    → locked keys j ≡ has_key (a ++ (t, k) ∷ b) j
    → has_key (a ++ b) k ≡ false
    → locked (unlock keys k) j ≡ has_key (a ++ b) j
unfolding has_key
still_held keys t k j a b e free = elim (Bool-cases (k =ₛ j)) [
  | inl g ↦
      locked-unlock keys k j
      ∙ ap (λ (c : Bool). not c && locked keys j) g
      ∙ sym (ap (λ l. has_key (a ++ b) l) (sym ((=ₛ_iff k j).0 g)) ∙ free)
  | inr g ↦
      locked-unlock keys k j
      ∙ ap (λ (c : Bool). not c && locked keys j) g
      ∙ e
      ∙ has_key-append a ((t, k) ∷ b) j
      ∙ ap (λ (c : Bool). has_key a j || (if c then true else has_key b j)) g
      ∙ sym (has_key-append a b j)
]

-- Of keys that are each held once, one is not held by anybody else.
Distinct-split :
    (a b : List (ℕ × Bytes)) (t : ℕ) (k : Bytes)
    → Distinct (a ++ (t, k) ∷ b)
    → (has_key (a ++ b) k ≡ false) × Distinct (a ++ b)
unfolding has_key
Distinct-split [] b t k h = h
Distinct-split ((u, j) ∷ a) b t k (h, g) =
    let (rest, once) = Distinct-split a b t k g in
    let (other, none_left) = apart a b t k j h in
    (ground (arith, rest, other_test_sym k j other), (none_left, once))

-- After Unlock the map has the keys of those who still hold one.
unlocks-IsConsistent :
    (s : Locks) (t : ℕ) (k : Bytes) (a b : List (ℕ × Bytes))
    → s.held ≡ a ++ (t, k) ∷ b
    → IsConsistent s
    → IsConsistent (record { keys = unlock s.keys k; held = a ++ b; waiting = broadcast s.waiting })
unlocks-IsConsistent s t k a b held i =
    let (free, once) = Distinct-split a b t k (subst Distinct held i.once) in
    record {
      same = λ j. still_held s.keys t k j a b (i.same j ∙ ap (λ l. has_key l j) held) free;
      once = once;
    }

Step-IsConsistent : (s u : Locks) → IsConsistent s → Step s u → IsConsistent u
Step-IsConsistent s u i (Step.locks _ t k keys awake h) = locks-IsConsistent s t k keys i h
Step-IsConsistent s u i (Step.waits _ t k awake h) = record { same = i.same; once = i.once }
Step-IsConsistent s u i (Step.unlocks _ t k a b awake held) = unlocks-IsConsistent s t k a b held i

-- Whatever the threads do, the map of the mutex has exactly the keys that are held, and no key is
-- held by two threads at once.
pub Reachable-IsConsistent : (s : Locks) → Reachable s → IsConsistent s
unfolding locked has_key
Reachable-IsConsistent s Reachable.here = record { same = λ k. refl; once = tt }
Reachable-IsConsistent s (Reachable.next r _ reached step) =
    Step-IsConsistent r s (Reachable-IsConsistent r reached) step
