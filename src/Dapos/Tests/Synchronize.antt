-- ===== src/Dapos/Tests/Synchronize.antt =====
-- A peer with three entries, of which one is not copied, and whose first call fails.
use disgo.Prelude.{ℕ, zero, suc, ◌≡◌, refl, inl, inr, some, List, [], ◌∷◌, length, ℤ, pos, arith}
use disgo.Prelude.Text.{Bytes, codes, has_prefix}
use disgo.Types.Errors.{Result, ok, err, key_not_found}
use disgo.Store.{text, assoc_stores, assoc_IsStore, entries}
use disgo.Dapos.Synchronize.{Item, is_shared, synchronize_grpc, rounds}
use disgo.Dapos.Synchronize.Served.{copied_from}
use disgo.Dapos.Synchronize.Copy.{IsAnswered, after, rounds_terminates}
use disgo.Dapos.Tests.{reliable}

abbrev peer : List Item
peer =
    (codes "table-account-a", text (codes "1"))
    ∷ (codes "Page-1", text (codes "2"))
    ∷ (codes "key-node-type-b", text (codes "3"))
    ∷ []

abbrev ask : ℕ → ℤ → Result (List Item)
ask zero index = err key_not_found
ask (suc n) index = ok (synchronize_grpc assoc_stores peer index)

answered : IsAnswered assoc_stores ask peer 1
answered zero index = inr (omega arith, key_not_found, refl)
answered (suc n) index = inl refl

two : length (copied_from assoc_stores peer) ≡ 2
unfolding is_shared has_prefix entries
two = refl

rounds_terminates_example :
    (d : assoc_stores.Db) × (rounds assoc_stores ask 3 0 (pos 0) []
      ≡ ok (some (pos (length (copied_from assoc_stores peer)), d)))
    × ((k : Bytes)
        → assoc_stores.txn_get (assoc_stores.new_transaction d) k
          ≡ after
              (copied_from assoc_stores peer)
              k
              (assoc_stores.txn_get (assoc_stores.new_transaction []) k))
rounds_terminates_example =
    rounds_terminates assoc_stores ask peer 1 3 [] assoc_IsStore reliable answered
      (omega (arith, two)) (omega (arith, two))
