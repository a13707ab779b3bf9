-- ===== src/Kmutex/Tests.antt =====
-- A run of commons/utils/kmutex.go: a thread waits for the key that another one holds, until this one
-- unlocks it.
use disgo.Prelude.{◌≡◌, refl, false, some, [], ◌∷◌}
use disgo.Prelude.Text.{codes}
use disgo.Kmutex.{locked, lock, unlock, is_asleep, broadcast, Locks, start, Step, Reachable}
use disgo.Kmutex.Exclusion.{has_key, IsConsistent, Reachable-IsConsistent}
use disgo.Kmutex.Wakeup.{Reachable-IsFree}

abbrev first : Locks
first = record { keys = codes "aa" ∷ []; held = (1, codes "aa") ∷ []; waiting = [] }

abbrev both : Locks
both = record first { waiting = (2, codes "aa") ∷ [] }

both-Reachable : Reachable both
unfolding lock locked is_asleep
both-Reachable =
    Reachable.next first both
      (Reachable.next start first Reachable.here (Step.locks start 1 (codes "aa") _ refl refl))
      (Step.waits first 2 (codes "aa") refl refl)

unlocked-Reachable : Reachable start
unfolding unlock broadcast is_asleep
unlocked-Reachable =
    Reachable.next both start both-Reachable (Step.unlocks both 1 (codes "aa") [] [] refl refl)

Reachable-IsConsistent_example : IsConsistent both
Reachable-IsConsistent_example = Reachable-IsConsistent both both-Reachable

Reachable-IsFree_example :
    (has_key start.waiting (codes "aa") ≡ false)
    × (lock start.keys (codes "aa") ≡ some (codes "aa" ∷ start.keys))
unfolding has_key
Reachable-IsFree_example = Reachable-IsFree start (codes "aa") unlocked-Reachable refl
