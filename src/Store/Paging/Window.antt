-- ===== src/Store/Paging/Window.antt =====
-- That the loops of commons/types collect one page: a piece of the entries, loaded in order.
use disgo.Prelude.{
  ℕ, zero, suc, ◌+◌, ◌≤◌, ◌≡◌, refl, sym, ap, ◌∙◌, Bool, true, false, ◌&&◌, Bool-cases, inl, inr,
  Option, none, some, List, [], ◌∷◌, take, drop, leb, ltb, arith,
}
use disgo.Prelude.Text.{Bytes}
use disgo.Types.Errors.{Result, ok, err, panic, ◌>>=◌}
use disgo.Store.Defs.{Value}
use disgo.Store.Paging.{walk}

module _ {A : Type 0} (load : Value → Result (Option A)) where
  abbrev pub add_item : Option A → List A → List A
  add_item none l = l
  add_item (some a) l = a ∷ l

  -- All entries loaded, in order, less those that are left out.
  abbrev pub load_all : List (Bytes × Value) → Result (List A)
  load_all [] = ok []
  load_all ((k, v) ∷ items) = load v >>= λ o. load_all items >>= λ l. ok (add_item o l)

  load_nothing : (n : ℕ) → load_all (take n []) ≡ ok []
  load_nothing zero = refl
  load_nothing (suc n) = refl

  module _ (inside stop : ℕ → Bool) (low size : ℕ)
      (page : (n : ℕ) → inside (suc n) ≡ (leb low n && ltb n (low + size)))
      (late : (n : ℕ) → stop n ≡ true → low + size ≤ n) where
    one_item :
        (r : Result (Option A)) (next rest target : Result (List A))
        → next ≡ target
        → rest ≡ target
        → (r >>= λ o. elim o [ none ↦ next | some a ↦ rest >>= λ l. ok (a ∷ l) ])
          ≡ (r >>= λ o. target >>= λ l. ok (add_item o l))
    one_item panic next rest target e f = refl
    one_item (err r) next rest target e f = refl
    one_item (ok none) next rest (ok l) e f = e
    one_item (ok none) next rest (err r) e f = e
    one_item (ok none) next rest panic e f = e
    one_item (ok (some a)) next rest target e f =
        ap (λ (r : Result (List A)). r >>= λ l. ok (a ∷ l)) f

    -- Past the page nothing is collected, whether the loop is broken or not.
    walk_after :
        (n : ℕ) (items : List (Bytes × Value))
        → low + size ≤ n
        → walk inside stop load n items ≡ ok []
    unfolding walk
    walk_after n [] h = refl
    walk_after n ((k, v) ∷ items) h =
        let out : inside (suc n) ≡ false = page n ∙ ground arith in
        elim (Bool-cases (stop (suc n))) [
          | inl t ↦ rw (out, t)
          | inr t ↦ rw (out, t) (walk_after (suc n) items (omega arith))
        ]

    -- From the first item of the page on, as many as are left of it.
    walk_inside :
        (k n : ℕ) (items : List (Bytes × Value))
        → low ≤ n
        → n + k ≡ low + size
        → walk inside stop load n items ≡ load_all (take k items)
    unfolding walk
    walk_inside zero n items h e = walk_after n items (omega arith)
    walk_inside (suc k) n [] h e = refl
    walk_inside (suc k) n ((k', v) ∷ items) h e =
        let within : inside (suc n) ≡ true = page n ∙ ground arith in
        let next = walk_inside k (suc n) items (omega arith) (omega arith) in
        rw within (
          one_item (load v) _ _ (load_all (take k items)) next (elim (Bool-cases (stop (suc n))) [
            | inl t ↦ rw t (
                ap (λ (m : ℕ). load_all (take m items))
                  (let none_left : 0 ≡ k = omega (arith, late (suc n) t) in none_left))
            | inr t ↦ rw t next
          ]))

    -- Before the page, the items up to it are passed over.
    walk_before :
        (k n : ℕ) (items : List (Bytes × Value))
        → n + k ≡ low
        → walk inside stop load n items ≡ load_all (take size (drop k items))
    unfolding walk
    walk_before zero n items e = walk_inside size n items (omega arith) (omega arith)
    walk_before (suc k) n [] e = sym (load_nothing size)
    walk_before (suc k) n ((k', v) ∷ items) e =
        let out : inside (suc n) ≡ false = page n ∙ ground arith in
        let next = walk_before k (suc n) items (omega arith) in
        elim (Bool-cases (stop (suc n))) [
          | inl t ↦
              rw (out, t)
                (ap (λ (m : ℕ). load_all (take m (drop k items)))
                  (let none_left : 0 ≡ size = omega (arith, late (suc n) t) in none_left))
          | inr t ↦ rw (out, t) next
        ]

    pub walk_lem :
        (items : List (Bytes × Value))
        → walk inside stop load 0 items ≡ load_all (take size (drop low items))
    walk_lem items = walk_before low 0 items (omega arith)
