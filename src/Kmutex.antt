-- ===== src/Kmutex.antt =====
-- commons/utils/kmutex.go: one lock for every key, as executeTransaction of
-- dapos/dapos_handshake.go takes it for the hash of its transaction.
pub mod Exclusion
pub mod Wakeup
mod Tests
use disgo.Prelude.{
  ℕ, ◌≡◌, Bool, true, false, List, [], ◌∷◌, ◌++◌, Option, none, some, ◌==◌, if◌then◌else◌,
}
use disgo.Prelude.Text.{Bytes, ◌=ₛ◌}

-- locked: whether the map has the key.
unfoldable pub locked : List Bytes → Bytes → Bool
locked [] k = false
locked (j ∷ keys) k = if j =ₛ k then true else locked keys k

-- The test of Lock's loop, at its first turn and after each Wait: `none` is that it waits.
unfoldable pub lock : List Bytes → Bytes → Option (List Bytes)
lock keys k = if locked keys k then none else some (k ∷ keys)

-- Unlock: the key is deleted, whoever calls.
unfoldable pub unlock : List Bytes → Bytes → List Bytes
unlock [] k = []
unlock (j ∷ keys) k = let rest = unlock keys k in if j =ₛ k then rest else j ∷ rest

-- Who is in Wait, and in the loop of which key's Lock.
abbrev pub Sleepers : Type 0
Sleepers = List (ℕ × Bytes)

unfoldable pub is_asleep : Sleepers → ℕ → Bool
is_asleep [] t = false
is_asleep ((u, k) ∷ waiting) t = let rest = is_asleep waiting t in if u == t then true else rest

-- The Broadcast of Unlock: all of them come out of Wait.
unfoldable pub broadcast : Sleepers → Sleepers
broadcast waiting = []

-- The map of the mutex, who has come out of Lock and not yet called Unlock, and who is in Wait.
pub record Locks : Type 0 where
  pub keys : List Bytes
  pub held : List (ℕ × Bytes)
  pub waiting : Sleepers

-- NewKmutex
abbrev pub start : Locks
start = record { keys = []; held = []; waiting = [] }

-- What the threads that are not in Wait do to it, where each unlocks only what it has locked
-- (`defer`). A turn of Lock, and Unlock, have the locker throughout; Wait gives it back.
pub data Step : Locks → Locks → Type 0 where
  locks :
      (s : Locks) (t : ℕ) (k : Bytes) (keys : List Bytes)
      → is_asleep s.waiting t ≡ false
      → lock s.keys k ≡ some keys
      → Step s (record s { keys = keys; held = (t, k) ∷ s.held })
  waits :
      (s : Locks) (t : ℕ) (k : Bytes)
      → is_asleep s.waiting t ≡ false
      → lock s.keys k ≡ none
      → Step s (record s { waiting = (t, k) ∷ s.waiting })
  unlocks :
      (s : Locks) (t : ℕ) (k : Bytes) (before after : List (ℕ × Bytes))
      → is_asleep s.waiting t ≡ false
      → s.held ≡ before ++ (t, k) ∷ after
      → Step s
          (record { keys = unlock s.keys k; held = before ++ after; waiting = broadcast s.waiting })

pub data Reachable : Locks → Type 0 where
  here : Reachable start
  next : (s u : Locks) → Reachable s → Step s u → Reachable u
