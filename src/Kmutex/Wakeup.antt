-- ===== src/Kmutex/Wakeup.antt =====
-- No wake-up of commons/utils/kmutex.go is lost.
use mathlib.Core.Bool.{false≢true}
use disgo.Prelude.{
  ℕ, ◌≡◌, refl, sym, ap, ◌∙◌, Bool, true, false, List, [], ◌∷◌, some, none, if◌then◌else◌,
  Bool-cases, inl, inr, All, arith,
}
use disgo.Prelude.Text.{Bytes, ◌=ₛ◌, =ₛ_iff}
use disgo.Kmutex.{locked, lock, broadcast, Sleepers, Locks, Step, Reachable}
use disgo.Kmutex.Exclusion.{has_key, Reachable-IsConsistent}

-- Whoever is in Wait is there for a key that somebody holds.
abbrev AreBlocked : List (ℕ × Bytes) → Sleepers → Type 0
AreBlocked held waiting = All (λ w. has_key held w.1 ≡ true) waiting

locks-AreBlocked :
    (held : List (ℕ × Bytes)) (t : ℕ) (k : Bytes) (waiting : Sleepers)
    → AreBlocked held waiting
    → AreBlocked ((t, k) ∷ held) waiting
unfolding has_key
locks-AreBlocked held t k [] h = tt
locks-AreBlocked held t k ((u, j) ∷ waiting) (h, g) =
    (ground (arith, h), locks-AreBlocked held t k waiting g)

lock-eq-none :
    (keys : List Bytes) (k : Bytes) (b : Bool)
    → locked keys k ≡ b
    → (if b then none else some (k ∷ keys)) ≡ none
    → locked keys k ≡ true
lock-eq-none keys k true e h = e
lock-eq-none keys k false e h = cc

Step-AreBlocked :
    (s u : Locks)
    → Reachable s
    → AreBlocked s.held s.waiting
    → Step s u
    → AreBlocked u.held u.waiting
unfolding lock broadcast
Step-AreBlocked s u reached i (Step.locks _ t k keys awake h) =
    locks-AreBlocked s.held t k s.waiting i
Step-AreBlocked s u reached i (Step.waits _ t k awake h) =
    let consistent = Reachable-IsConsistent s reached in
    (sym (consistent.same k) ∙ lock-eq-none s.keys k _ refl h, i)
Step-AreBlocked s u reached i (Step.unlocks _ t k a b awake held) = tt

Reachable-AreBlocked : (s : Locks) → Reachable s → AreBlocked s.held s.waiting
Reachable-AreBlocked s Reachable.here = tt
Reachable-AreBlocked s (Reachable.next r _ reached step) =
    Step-AreBlocked r s reached (Reachable-AreBlocked r reached) step

none_for :
    (held : List (ℕ × Bytes)) (k : Bytes) (waiting : Sleepers)
    → has_key held k ≡ false
    → AreBlocked held waiting
    → has_key waiting k ≡ false
unfolding has_key
none_for held k [] free h = refl
none_for held k ((u, j) ∷ waiting) free (h, g) = elim (Bool-cases (j =ₛ k)) [
  | inl e ↦ absurd (false≢true (sym free ∙ ap (λ l. has_key held l) (sym ((=ₛ_iff j k).0 e)) ∙ h))
  | inr e ↦ rw e (none_for held k waiting free g)
]

-- Whatever the threads do, where nobody holds a key nobody is left waiting in its Lock, and the next
-- turn of a thread at that Lock takes it.
pub Reachable-IsFree :
    (s : Locks) (k : Bytes)
    → Reachable s
    → has_key s.held k ≡ false
    → (has_key s.waiting k ≡ false) × (lock s.keys k ≡ some (k ∷ s.keys))
unfolding lock
Reachable-IsFree s k reached free =
    let consistent = Reachable-IsConsistent s reached in
    let gone : locked s.keys k ≡ false = consistent.same k ∙ free in
    (none_for s.held k s.waiting free (Reachable-AreBlocked s reached), rw gone)
