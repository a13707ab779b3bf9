-- ===== src/Dapos/Synchronize/Copy.antt =====
-- That peerSynchronize of dapos/dapos_transport_grpc.go comes to an end, with a copy.
use mathlib.Core.Bool.{false≢true}
use disgo.Prelude.{
  ℕ, zero, suc, ◌+◌, ◌-◌, ◌*◌, ◌/◌, ◌<◌, ◌≤◌, ◌≡◌, refl, sym, ap, ◌∙◌, Bool-cases, ◌⊎◌, inl, inr,
  some, List, [], ◌∷◌, ◌++◌, take, drop, length, length-take, length-drop, ℤ, pos, add64, add64_pos,
  if◌then◌else◌, arith,
}
use disgo.Prelude.Text.{Bytes, ◌=ₛ◌, =ₛ_iff}
use disgo.Types.Errors.{Error, Result, ok, err}
use disgo.Store.{Value, Stores, IsStore}
use disgo.Dapos.Execute.Success.{IsReliable}
use disgo.Dapos.Synchronize.{Item, Remote, set_items, set_or_skip, synchronize_grpc, rounds}
use disgo.Dapos.Synchronize.Served.{copied_from, synchronize_grpc_lem}

-- What a key holds after the items have been set, of what it held before.
abbrev pub after : List Item → Bytes → Result Value → Result Value
after [] k old = old
after ((j, v) ∷ items) k old = after items k (if j =ₛ k then ok v else old)

after-append :
    (xs ys : List Item) (k : Bytes) (old : Result Value)
    → after (xs ++ ys) k old ≡ after ys k (after xs k old)
after-append [] ys k old = refl
after-append ((j, v) ∷ xs) ys k old = after-append xs ys k _

append-take : (n : ℕ) (l : List Item) → take n l ++ drop n l ≡ l
append-take zero l = refl
append-take (suc n) [] = refl
append-take (suc n) (x ∷ l) = ap (◌∷◌ x) (append-take n l)

drop-length : (n : ℕ) (l : List Item) → drop (length (take n l)) l ≡ drop n l
drop-length zero l = refl
drop-length (suc n) [] = refl
drop-length (suc n) (x ∷ l) = drop-length n l

drop-drop : (m n : ℕ) (l : List Item) → drop (m + n) l ≡ drop n (drop m l)
drop-drop zero n l = let none_yet : 0 + n ≡ n = omega arith in rw none_yet refl
drop-drop (suc m) zero [] = let one : suc m + 0 ≡ suc m = omega arith in rw one refl
drop-drop (suc m) (suc n) [] =
    let one : suc m + suc n ≡ suc (m + suc n) = omega arith in rw one refl
drop-drop (suc m) n (x ∷ l) =
    let one : suc m + n ≡ suc (m + n) = omega arith in rw one (drop-drop m n l)

module _ (s : Stores) (laws : IsStore s) (r : IsReliable s) where
  get-set :
      (txn u : s.Txn) (j k : Bytes) (v : Value)
      → s.txn_set txn j v ≡ ok u
      → s.txn_get u k ≡ (if j =ₛ k then ok v else s.txn_get txn k)
  get-set txn u j k v e = elim (Bool-cases (j =ₛ k)) [
    | inl same ↦ rw same (rw (← (=ₛ_iff j k).0 same) (laws.get-set_self txn u j v e))
    | inr other ↦
        rw other (laws.get-set_ne txn u j k v (λ e. false≢true (sym other ∙ (=ₛ_iff j k).1 e)) e)
  ]

  set_items_ok :
      (items : List Item) (txn : s.Txn)
      → (u : s.Txn) × (set_items s items txn ≡ ok u)
        × ((k : Bytes) → s.txn_get u k ≡ after items k (s.txn_get txn k))
  unfolding set_items set_or_skip
  set_items_ok [] txn = (txn, refl, λ k. refl)
  set_items_ok ((j, v) ∷ items) txn =
      let (u, e) = r.set_ok txn j v in
      let (w, f, g) = set_items_ok items u in
      (w, rw e f, λ k. g k ∙ ap (after items k) (get-set txn u j k v e))

module _ (s : Stores) (ask : Remote) (peer : s.Db) (failures : ℕ) where
  -- Each call is answered by the peer, of one state of its database, or it is among the first ones
  -- and fails.
  abbrev pub IsAnswered : Type 0
  IsAnswered =
      (call : ℕ) (index : ℤ)
      → (ask call index ≡ ok (synchronize_grpc s peer index))
        ⊎ ((call < failures) × (e : Error) × (ask call index ≡ err e))

  module _ (laws : IsStore s) (r : IsReliable s) (asks : IsAnswered)
      (bound : length (copied_from s peer) < 9223372036854775808) where
    -- The end of the rounds, where `l` is left to copy.
    abbrev Ends : ℕ → ℕ → ℕ → s.Db → List Item → Type 0
    Ends fuel call m db l =
        (d : s.Db) × (rounds s ask fuel call (pos m) db
          ≡ ok (some (pos (length (copied_from s peer)), d)))
        × ((k : Bytes)
            → s.txn_get (s.new_transaction d) k ≡ after l k (s.txn_get (s.new_transaction db) k))

    round :
        (fuel call m : ℕ) (db : s.Db) (l : List Item)
        → drop m (copied_from s peer) ≡ l
        → m + length l ≡ length (copied_from s peer)
        → (0 < length l → (d : s.Db) → Ends fuel (suc call) (m + length (take 50 l)) d (drop 50 l))
        → ask call (pos m) ≡ ok (take 50 l)
        → Ends (suc fuel) call m db l
    unfolding rounds
    round fuel call m db [] at_m left next e = (
      db,
      rw (e, rounds) (ap (λ (n : ℕ). ok (some (pos n, db))) (omega (arith, left))),
      λ k. refl,
    )
    round fuel call m db (i ∷ l) at_m left next e =
        let page = take 50 (i ∷ l) in
        let (txn, set, held) = set_items_ok s laws r page (s.new_transaction db) in
        let (d, committed) = r.commit_ok txn db in
        let (d', done, kept) = next (omega arith) d in
        let index : add64 (pos m) (pos (length page)) ≡ pos (m + length page) =
          add64_pos m (length page) (omega (arith, left, bound, length-take 50 (i ∷ l))) in
        (
          d',
          rw (e, rounds) (rw set (rw committed (rw index done))),
          λ k.
              kept k
              ∙ ap (after (drop 50 (i ∷ l)) k) (laws.get-commit txn db d k committed ∙ held k)
              ∙ sym (after-append page (drop 50 (i ∷ l)) k _)
              ∙ ap (λ (n : List Item). after n k (s.txn_get (s.new_transaction db) k))
                  (append-take 50 (i ∷ l)),
        )

    rounds_end :
        (fuel call m : ℕ) (db : s.Db) (l : List Item)
        → drop m (copied_from s peer) ≡ l
        → m + length l ≡ length (copied_from s peer)
        → length l + 50 + (failures - call) * 50 ≤ fuel * 50
        → Ends fuel call m db l
    unfolding rounds
    rounds_end zero call m db l at_m left enough = absurd (omega (arith, enough))
    rounds_end (suc fuel) call m db l at_m left enough = elim (asks call (pos m)) [
      | inl e ↦
          round fuel call m db l at_m left
            (λ some_left d.
              rounds_end fuel (suc call) (m + length (take 50 l)) d (drop 50 l)
                (drop-drop m _ _ ∙ ap (drop (length (take 50 l))) at_m ∙ drop-length 50 l)
                (omega (arith, left, length-take 50 l, length-drop 50 l))
                (omega (arith, enough, some_left, length-drop 50 l)))
            (e ∙ ap ok (synchronize_grpc_lem s peer m ∙ ap (take 50) at_m))
      | inr (early, why, e) ↦
          let (d, done, kept) =
            rounds_end fuel (suc call) m db l at_m left (omega (arith, enough, early)) in
          (d, rw (e, rounds) done, kept)
    ]

module _ (s : Stores) (ask : Remote) (peer : s.Db) (failures : ℕ) where
  -- Copying from a peer comes to an end, if its calls fail at most so many times at first, and its
  -- database stays the same: after at most a call for every fifty entries, two more, and the failed
  -- ones, the index is the number of the entries that are copied, and every key holds what the last
  -- entry of it says, and what it held before if there is none. No write and no commit fails here.
  pub rounds_terminates :
      (fuel : ℕ) (db : s.Db)
      → IsStore s
      → IsReliable s
      → IsAnswered s ask peer failures
      → length (copied_from s peer) < 9223372036854775808
      → length (copied_from s peer) / 50 + 2 + failures ≤ fuel
      → (d : s.Db) × (rounds s ask fuel 0 (pos 0) db
          ≡ ok (some (pos (length (copied_from s peer)), d)))
        × ((k : Bytes)
            → s.txn_get (s.new_transaction d) k
              ≡ after (copied_from s peer) k (s.txn_get (s.new_transaction db) k))
  rounds_terminates fuel db laws r asks bound enough =
      rounds_end s ask peer failures laws r asks bound fuel 0 0 db _ refl (omega arith)
        (omega (arith, enough))
