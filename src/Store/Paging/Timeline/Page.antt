-- ===== src/Store/Paging/Timeline/Page.antt =====
-- Which transactions TransactionPaging of commons/types/transaction.go returns.
use disgo.Prelude.{
  ℕ, zero, suc, ◌+◌, ◌-◌, ◌*◌, ◌≤◌, ◌<◌, ◌≡◌, refl, sym, ap, ◌∙◌, false, Bool-cases, inl, inr,
  Option, none, some, List, [], ◌∷◌, All, take, drop, length, get_elem?, ℤ, pos, ltb_ℤ, add64_pos,
  sub64_pos, mul64_pos, if◌then◌else◌, arith,
}
use disgo.Prelude.Text.{Bytes, ◌=ₛ◌}
use disgo.Crypto.{External}
use disgo.Types.Errors.{Result, ok, ◌>>=◌, >>=-eq-ok, ok-injective}
use disgo.Types.Receipt.{is_empty}
use disgo.Types.Transaction.{Transaction}
use disgo.Store.Defs.{Stores}
use disgo.Store.Paging.{check_page}
use disgo.Store.Paging.Pages.{max_int}
use disgo.Store.Paging.Timeline.{
  hash_of_key, at_int, find_start, load_key, collect, found, none_yet, timestamps,
  transaction_paging,
}

some_place : {a b : ℕ × Bytes} → some a ≡ some b → a ≡ b
some_place e = cc

-- The starting hash is found at one of the places that were looked at.
find_start_bounds :
    (start : Bytes) (i : ℕ) (ts : List Bytes) (j : ℕ) (w : Bytes)
    → find_start start i ts ≡ ok (some (j, w))
    → (i ≤ j) × (j < i + length ts)
unfolding find_start
find_start_bounds start i [] j w e = absurd (none_ne_some (ok-injective e))
  where
    none_ne_some : {p : ℕ × Bytes} → none ≡ some p → ⊥
    none_ne_some e = cc
find_start_bounds start i (k ∷ ts) j w e =
    let (hash, e₁, rest) = >>=-eq-ok (hash_of_key k) _ e in
    let wanted : Bytes = if is_empty start then hash else start in
    elim (Bool-cases (wanted =ₛ hash)) [
      | inl here ↦
          let place = ap (λ (p : ℕ × Bytes). p.0) (some_place (ok-injective (rw here at rest))) in
          omega (arith, place)
      | inr later ↦
          let (low, high) = find_start_bounds wanted (suc i) ts j w (rw later at rest) in
          (omega (arith, low), omega (arith, high))
    ]

one_key :
    (ts : List Bytes) (i m n : ℕ)
    → All (λ k. is_empty k ≡ false) ts
    → i < m
    → m ≤ length ts
    → (k : Bytes) × (get_elem? ts i ≡ some k)
      × (is_empty k ≡ false)
      × (take (suc n) (drop i (take m ts)) ≡ k ∷ take n (drop (suc i) (take m ts)))
one_key [] i m n full h h' = absurd (omega arith)
one_key (k ∷ ts) zero zero n full h h' = absurd (omega arith)
one_key (k ∷ ts) zero (suc m) n full h h' = (k, refl, full.0, refl)
one_key (k ∷ ts) (suc i) zero n full h h' = absurd (omega arith)
one_key (k ∷ ts) (suc i) (suc m) n full h h' = one_key ts i m n full.1 (omega arith) (omega arith)

not_none :
    {A : Type 0}
    → (ts : List Bytes) (j : ℕ) → j < 0 + length ts
    → (a b : A) → (if none_yet ts then a else b) ≡ b
not_none [] j h a b = absurd (omega arith)
not_none (k ∷ ts) j h a b = refl

take_nothing : (n : ℕ) → take {A = Bytes} n [] ≡ []
take_nothing zero = refl
take_nothing (suc n) = refl

drop_nothing : (i : ℕ) → drop {A = Bytes} i [] ≡ []
drop_nothing zero = refl
drop_nothing (suc i) = refl

drop_past : (ts : List Bytes) (i m : ℕ) → m ≤ i → drop i (take m ts) ≡ []
drop_past ts i zero h = drop_nothing i
drop_past [] i (suc m) h = drop_nothing i
drop_past (k ∷ ts) zero (suc m) h = absurd (omega arith)
drop_past (k ∷ ts) (suc i) (suc m) h = drop_past ts i m (omega arith)

nothing_left : (ts : List Bytes) (i m n : ℕ) → m ≤ i → take n (drop i (take m ts)) ≡ []
nothing_left ts i m n h = rw (drop_past ts i m h) (take_nothing n)

module _ (s : Stores) (x : External) (now : ℤ) (txn : s.Txn) where
  -- The transactions of some keys, in order.
  abbrev pub load_keys : List Bytes → Result (List (Option Transaction))
  load_keys [] = ok []
  load_keys (k ∷ ks) = load_key s x now txn k >>= λ t. load_keys ks >>= λ l. ok (t ∷ l)

  collect_lem :
      (ts : List Bytes) (m n i : ℕ)
      → All (λ k. is_empty k ≡ false) ts
      → m ≤ length ts
      → i + n < max_int
      → collect s x now txn ts (pos m) n (pos i) ≡ load_keys (take n (drop i (take m ts)))
  unfolding collect at_int
  collect_lem ts m zero i full h bound = refl
  collect_lem ts m (suc n) i full h bound = elim (Bool-cases (ltb_ℤ (pos i) (pos m))) [
    | inl inside ↦
        let (k, there, filled, next) = one_key ts i m n full (ground arith) h in
        rw (inside, there, filled, next, add64_pos i 1 (omega (arith, bound)))
          (ap
            (λ (r : Result (List (Option Transaction))).
              load_key s x now txn k >>= λ t. r >>= λ l. ok (t ∷ l))
            (ap (λ (j : ℕ). collect s x now txn ts (pos m) n (pos j)) (omega arith)
              ∙ collect_lem ts m n (suc i) full h (omega (arith, bound))))
    | inr past ↦
        let out : m ≤ i = ground arith in
        rw past (
          collect_lem ts m n i full h (omega (arith, bound))
          ∙ ap load_keys (nothing_left ts i m n out ∙ sym (nothing_left ts i m (suc n) out)))
  ]

  found_lem :
      (ts : List Bytes) (start : Bytes) (q size j : ℕ)
      → All (λ k. is_empty k ≡ false) ts
      → j ≤ length ts
      → length ts < max_int
      → j + suc q * size < max_int
      → found s x now txn ts (pos (suc q)) (pos size) (some (j, start)) ≡ (
          load_keys (take size (drop (j + q * size) (take (length ts - j) ts))) >>= λ l.
          ok (l, record { count = pos (length ts - j); page_start = start }))
  unfolding found
  found_lem ts start q size j full inside short bound =
      let product : suc q * size ≡ q * size + size = grind arith in
      rw
        (
          sub64_pos (length ts) j inside (omega (arith, short)),
          mul64_pos (suc q) size (omega (arith, bound)),
          add64_pos j (suc q * size) (omega (arith, bound)),
          sub64_pos (j + suc q * size) size (omega (arith, product)) (omega (arith, bound)),
        )
        (ap
          (λ (r : Result (List (Option Transaction))).
            r >>= λ l. ok (l, record { count = pos (length ts - j); page_start = start }))
          (ap (λ (i : ℕ). collect s x now txn ts (pos (length ts - j)) size (pos i))
              (omega (arith, product))
            ∙ collect_lem ts (length ts - j) size (j + q * size) full (omega arith)
                (omega (arith, bound, product))))

  -- A page of transactions, where the starting hash is that of the timestamp at `j`: `size` of them
  -- from `j + q * size` on, but only of the first `n - j` of all `n`, so that the last `j` are never
  -- returned; and the count of those from the starting hash on. Page and size are in their bounds,
  -- and the numbers do not overflow.
  pub transaction_paging-IsPage :
      (start w : Bytes) (q size j : ℕ)
      → check_page (pos (suc q)) (pos size) ≡ ok tt
      → All (λ k. is_empty k ≡ false) (timestamps s x now txn)
      → length (timestamps s x now txn) < max_int
      → j + suc q * size < max_int
      → find_start start 0 (timestamps s x now txn) ≡ ok (some (j, w))
      → transaction_paging s x now txn start (pos (suc q)) (pos size) ≡ (
          let ts = timestamps s x now txn in
          load_keys (take size (drop (j + q * size) (take (length ts - j) ts))) >>= λ l.
          ok (l, record { count = pos (length ts - j); page_start = w }))
  unfolding transaction_paging
  transaction_paging-IsPage start w q size j fine full short bound e =
      let ts = timestamps s x now txn in
      let (low, high) = find_start_bounds start 0 ts j w e in
      rw (fine, e)
        (not_none ts j high _ _ ∙ found_lem ts w q size j full (omega (arith, high)) short bound)
