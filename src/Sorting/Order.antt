-- ===== src/Sorting/Order.antt =====
-- That sorting orders, and keeps the items.
use mathlib.Core.List.Perm
use mathlib.Core.List.{Perm}
use disgo.Prelude.{
  ◌≡◌, refl, Bool, true, false, Bool-cases, inl, inr, List, [], ◌∷◌, All, arith, ℤ, ◌≤ℤ◌, ◌<ℤ◌, pos,
  negsuc, ◌⊎◌, ltb_ℤ, eqb_ℤ, sym, if◌then◌else◌,
}
use disgo.Prelude.Text.{Bytes}
use disgo.Types.Transaction.{Transaction}
use disgo.Sorting.{
  less_text, insert_by, sort_by, by_time, by_time_hash, sort_by_time, sort_by_time_hash,
}

-- What an order gives that is strict and total on what it tells apart.
pub record IsOrder {A : Type 0} (less : A → A → Bool) : Type 0 where
  pub asym : (a b : A) → less a b ≡ true → less b a ≡ false
  pub trans : (a b c : A) → less b a ≡ false → less c b ≡ false → less c a ≡ false

module _ {A : Type 0} (less : A → A → Bool) where
  -- No item is less than one before it.
  abbrev pub IsSorted : List A → Type 0
  IsSorted [] = Unit {0}
  IsSorted (x ∷ l) = All (λ y. less y x ≡ false) l × IsSorted l

  module _ (order : IsOrder less) where
    All-insert_by :
        (z x : A) (l : List A)
        → less x z ≡ false
        → All (λ y. less y z ≡ false) l
        → All (λ y. less y z ≡ false) (insert_by less x l)
    unfolding insert_by
    All-insert_by z x [] h all = (h, tt)
    All-insert_by z x (y ∷ l) h all = elim (Bool-cases (less y x)) [
      | inl e ↦ rw e (all.0, All-insert_by z x l h all.1)
      | inr e ↦ rw e (h, all)
    ]

    All-trans :
        (x y : A) (l : List A)
        → less y x ≡ false
        → All (λ z. less z y ≡ false) l
        → All (λ z. less z x ≡ false) l
    All-trans x y [] h all = tt
    All-trans x y (z ∷ l) h all = (order.trans x y z h all.0, All-trans x y l h all.1)

    insert_by-IsSorted : (x : A) (l : List A) → IsSorted l → IsSorted (insert_by less x l)
    unfolding insert_by
    insert_by-IsSorted x [] s = (tt, tt)
    insert_by-IsSorted x (y ∷ l) s = elim (Bool-cases (less y x)) [
      | inl e ↦ rw e (All-insert_by y x l (order.asym y x e) s.0, insert_by-IsSorted x l s.1)
      | inr e ↦ rw e ((e, All-trans x y l e s.0), s)
    ]

    pub sort_by-IsSorted : (l : List A) → IsSorted (sort_by less l)
    unfolding sort_by
    sort_by-IsSorted [] = tt
    sort_by-IsSorted (x ∷ l) = insert_by-IsSorted x (sort_by less l) (sort_by-IsSorted l)

  insert_by-perm : (x : A) (l : List A) → Perm (insert_by less x l) (x ∷ l)
  unfolding insert_by
  insert_by-perm x [] = Perm.refl (x ∷ [])
  insert_by-perm x (y ∷ l) = elim (Bool-cases (less y x)) [
    | inl e ↦ rw e (Perm.trans (Perm.cons y (insert_by-perm x l)) (Perm.swap x y l))
    | inr e ↦ rw e (Perm.refl (x ∷ y ∷ l))
  ]

  pub sort_by-perm : (l : List A) → Perm (sort_by less l) l
  unfolding sort_by
  sort_by-perm [] = Perm.refl []
  sort_by-perm (x ∷ l) =
      Perm.trans (insert_by-perm x (sort_by less l)) (Perm.cons x (sort_by-perm l))

less_text_asym : (s t : Bytes) → less_text s t ≡ true → less_text t s ≡ false
unfolding less_text
less_text_asym s [] h = cc
less_text_asym [] (b ∷ t) h = refl
less_text_asym (a ∷ s) (b ∷ t) h = ground (arith, less_text_asym s t)

less_text_trans :
    (s t u : Bytes) → less_text t s ≡ false → less_text u t ≡ false → less_text u s ≡ false
unfolding less_text
less_text_trans [] t u h k = refl
less_text_trans (a ∷ s) [] u h k = cc
less_text_trans (a ∷ s) (b ∷ t) [] h k = cc
less_text_trans (a ∷ s) (b ∷ t) (c ∷ u) h k = ground (arith, less_text_trans s t u)

by_time-IsOrder : (ascending : Bool) → IsOrder (by_time ascending)
unfolding by_time
by_time-IsOrder true = record { asym = λ a b h. ground arith; trans = λ a b c h k. ground arith }
by_time-IsOrder false = record { asym = λ a b h. ground arith; trans = λ a b c h k. ground arith }

by_time_hash-IsOrder : (ascending : Bool) → IsOrder (by_time_hash ascending)
unfolding by_time_hash
by_time_hash-IsOrder true = record {
  asym = λ a b h. ground (arith, less_text_asym a.hash b.hash);
  trans = λ a b c h k. ground (arith, less_text_trans a.hash b.hash c.hash);
}
by_time_hash-IsOrder false = record {
  asym = λ a b h. ground (arith, less_text_asym b.hash a.hash);
  trans = λ a b c h k. ground (arith, less_text_trans c.hash b.hash a.hash);
}

-- Every item stands in the relation to all behind it.
abbrev pub AreInOrder : {A : Type 0} → (A → A → Type 0) → List A → Type 0
AreInOrder R [] = Unit {0}
AreInOrder R (x ∷ l) = All (R x) l × AreInOrder R l

-- Of two transactions the first is not later, or where the order descends, not earlier.
abbrev pub IsInTime : Bool → Transaction → Transaction → Type 0
IsInTime true a b = a.time ≤ℤ b.time
IsInTime false a b = b.time ≤ℤ a.time

-- The times differ in that direction, or are the same, and so go the hashes.
abbrev pub IsInTimeHash : Bool → Transaction → Transaction → Type 0
IsInTimeHash true a b = (a.time <ℤ b.time) ⊎ ((a.time ≡ b.time) × (less_text b.hash a.hash ≡ false))
IsInTimeHash false a b =
    (b.time <ℤ a.time) ⊎ ((a.time ≡ b.time) × (less_text a.hash b.hash ≡ false))

by_time-IsInTime :
    (ascending : Bool) (a b : Transaction) → by_time ascending b a ≡ false → IsInTime ascending a b
unfolding by_time
by_time-IsInTime true a b h = ground arith
by_time-IsInTime false a b h = ground arith

eqb_ℤ_eq : (m n : ℤ) → eqb_ℤ m n ≡ true → m ≡ n
eqb_ℤ_eq (pos m) (pos n) h = ground arith
eqb_ℤ_eq (pos m) (negsuc n) h = ground arith
eqb_ℤ_eq (negsuc m) (pos n) h = ground arith
eqb_ℤ_eq (negsuc m) (negsuc n) h = ground arith

same_or_above :
    (m n : ℤ) (b : Bool)
    → (if eqb_ℤ n m then b else ltb_ℤ n m) ≡ false
    → (m <ℤ n) ⊎ ((n ≡ m) × (b ≡ false))
same_or_above m n b h = elim (Bool-cases (eqb_ℤ n m)) [
  | inl e ↦ inr (eqb_ℤ_eq n m e, rw e at h)
  | inr e ↦ inl (ground arith)
]

by_time_hash-IsInTimeHash :
    (ascending : Bool) (a b : Transaction)
    → by_time_hash ascending b a ≡ false
    → IsInTimeHash ascending a b
unfolding by_time_hash
by_time_hash-IsInTimeHash true a b h = elim (same_or_above a.time b.time _ h) [
  | inl above ↦ inl above
  | inr (e, f) ↦ inr (sym e, f)
]
by_time_hash-IsInTimeHash false a b h = same_or_above b.time a.time _ h

module _ {A : Type 0} (less : A → A → Bool) (R : A → A → Type 0)
    (sound : (a b : A) → less b a ≡ false → R a b) where
  All-sound : (x : A) (l : List A) → All (λ y. less y x ≡ false) l → All (R x) l
  All-sound x [] h = tt
  All-sound x (y ∷ l) (h, g) = (sound x y h, All-sound x l g)

  IsSorted-AreInOrder : (l : List A) → IsSorted less l → AreInOrder R l
  IsSorted-AreInOrder [] h = tt
  IsSorted-AreInOrder (x ∷ l) (h, g) = (All-sound x l h, IsSorted-AreInOrder l g)

-- SortByTime and SortByTimeHash leave the same transactions, each as often. Where they ascend, the
-- time of each is at most that of every one behind it, where they descend at least; of transactions
-- of one time SortByTimeHash puts the hashes in the same direction.
pub sort_by_time-AreInOrder :
    (ascending : Bool) (l : List Transaction)
    → AreInOrder (IsInTime ascending) (sort_by_time ascending l)
      × Perm (sort_by_time ascending l) l
      × AreInOrder (IsInTimeHash ascending) (sort_by_time_hash ascending l)
      × Perm (sort_by_time_hash ascending l) l
unfolding sort_by_time sort_by_time_hash
sort_by_time-AreInOrder ascending l = (
  IsSorted-AreInOrder (by_time ascending) (IsInTime ascending) (by_time-IsInTime ascending) _
      (sort_by-IsSorted (by_time ascending) (by_time-IsOrder ascending) l),
  sort_by-perm (by_time ascending) l,
  IsSorted-AreInOrder (by_time_hash ascending) (IsInTimeHash ascending)
      (by_time_hash-IsInTimeHash ascending) _
      (sort_by-IsSorted (by_time_hash ascending) (by_time_hash-IsOrder ascending) l),
  sort_by-perm (by_time_hash ascending) l,
)
