-- ===== src/Dapos/Synchronize/Served.antt =====
-- What SynchronizeGrpc of dapos/dapos_transport_grpc.go answers: a slice of the entries that are
-- copied.
use disgo.Prelude.{
  ℕ, zero, suc, ◌-◌, ◌<◌, ◌≡◌, refl, sym, ap, ◌∙◌, Bool-cases, inl, inr, List, [], ◌∷◌, take, drop,
  keep_if, ◌≤◌, pos, ltb_ℤ, ◌==◌, arith,
}
use disgo.Store.{Stores}
use disgo.Dapos.Synchronize.{Item, is_shared, gather, synchronize_grpc}

-- The entries that are copied, in the order of the iterator.
abbrev pub shared : List Item → List Item
shared = keep_if λ (e : Item). is_shared e.0

no_drop : (n : ℕ) → drop {A = Item} n [] ≡ []
no_drop zero = refl
no_drop (suc n) = refl

no_take : (n : ℕ) → take {A = Item} n [] ≡ []
no_take zero = refl
no_take (suc n) = refl

drop_one : (m n : ℕ) (e : Item) (l : List Item) → n < m → drop (m - n) (e ∷ l) ≡ drop (m - suc n) l
drop_one m n e l h = let one : m - n ≡ suc (m - suc n) = omega arith in rw one refl

-- With no entry left out, and room for one more
take_one :
    (m i n : ℕ) (e : Item) (l : List Item)
    → m ≤ i
    → n < 50
    → take (50 - n) (drop (m - i) (e ∷ l)) ≡ e ∷ take (50 - suc n) (drop (m - suc i) l)
take_one m i n e l h k =
    let here : m - i ≡ 0 = omega arith in
    let next : m - suc i ≡ 0 = omega arith in
    let one : 50 - n ≡ suc (50 - suc n) = omega arith in rw (here, next, one) refl

full_page : (n : ℕ) (l : List Item) → suc n ≡ 50 → [] ≡ take (50 - suc n) l
full_page n l h = let none_left : 50 - suc n ≡ 0 = omega arith in rw none_left refl

gather_lem :
    (m i n : ℕ) (items : List Item)
    → n < 50
    → gather (pos m) i n items ≡ take (50 - n) (drop (m - i) (shared items))
unfolding gather
gather_lem m i n [] h = rw (no_drop (m - i), no_take (50 - n))
gather_lem m i n ((k, v) ∷ items) h = elim (Bool-cases (is_shared k)) [
  | inr other ↦ rw (other, gather) (gather_lem m i n items h)
  | inl kept ↦
      rw (kept, gather)
        (elim (Bool-cases (ltb_ℤ (pos i) (pos m))) [
          | inl before ↦
              rw (before, gather)
                (gather_lem m (suc i) n items h
                  ∙ ap (take (50 - n)) (sym (drop_one m i (k, v) _ (ground (arith, before)))))
          | inr from ↦
              rw (from, gather)
                (elim (Bool-cases (suc n == 50)) [
                  | inl full ↦
                      rw (full, gather)
                        (ap (◌∷◌ (k, v)) (full_page n _ (ground (arith, full)))
                          ∙ sym (take_one m i n (k, v) _ (ground (arith, from)) h))
                  | inr room ↦
                      rw (room, gather)
                        (ap (◌∷◌ (k, v)) (gather_lem m (suc i) (suc n) items (ground (arith, room)))
                          ∙ sym (take_one m i n (k, v) _ (ground (arith, from)) h))
                ])
        ])
]

module _ (s : Stores) (peer : s.Db) where
  -- What a peer has to copy.
  abbrev pub copied_from : List Item
  copied_from = shared (s.iterate (s.new_transaction peer) [] [])

  pub synchronize_grpc_lem :
      (m : ℕ) → synchronize_grpc s peer (pos m) ≡ take 50 (drop m copied_from)
  unfolding synchronize_grpc
  synchronize_grpc_lem m =
      gather_lem m 0 0 _ (omega arith) ∙ ap (λ (n : ℕ). take 50 (drop n copied_from)) (omega arith)
