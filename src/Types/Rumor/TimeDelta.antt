-- ===== src/Types/Rumor/TimeDelta.antt =====
-- ValidateTimeDelta and RumorsSorter of commons/types/rumor.go, and what they promise.
use disgo.Prelude.{
  subst, ℕ, suc, ◌*◌, ◌≡◌, refl, ap, ◌∙◌, Bool, true, false, not, ◌&&◌, inl, inr, List, [], ◌∷◌, ℤ,
  pos, ◌-ℤ◌, ◌≤ℤ◌, ltb_ℤ, sub64, All, length, if◌then◌else◌, arith, -ℤ_parts, wrap64_self,
  Bool-cases,
}
use disgo.Types.Constants.{gossip_timeout}
use disgo.Types.Errors.{Result, ok, panic, ok-injective}
use disgo.Types.Rumor.{Rumor}

-- Less, with the rumors themselves for their places
unfoldable pub less : Rumor → Rumor → Bool
less a b = ltb_ℤ a.time b.time

-- sort.Sort: the rumors in the order of their times.
abbrev insert : Rumor → List Rumor → List Rumor
insert r [] = r ∷ []
insert r (a ∷ rs) = let rest = insert r rs in if less a r then a ∷ rest else r ∷ a ∷ rs

unfoldable pub sort : List Rumor → List Rumor
sort [] = []
sort (r ∷ rs) = insert r (sort rs)

-- The loop over neighbours, `gossipTime > GossipTimeout`, and the newest rumor's age.
unfoldable pub gaps_ok : ℤ → Rumor → List Rumor → Bool
gaps_ok now r [] = not (ltb_ℤ (pos gossip_timeout) (sub64 now r.time))
gaps_ok now r (a ∷ rs) = not (ltb_ℤ (pos gossip_timeout) (sub64 a.time r.time)) && gaps_ok now a rs

in_order : ℤ → List Rumor → Result (Bool × List Rumor)
in_order now [] = panic
in_order now (r ∷ rs) = ok (gaps_ok now r rs, r ∷ rs)

-- ValidateTimeDelta at `now` in milliseconds: its answer, and the slice as it leaves it, sorted;
-- without rumors it reads out of range.
unfoldable pub validate_time_delta : ℤ → List Rumor → Result (Bool × List Rumor)
unfolding in_order
validate_time_delta now rumors = in_order now (sort rumors)

-- A time between 1970 and the next 2 ^ 62 milliseconds, as a difference of two of them is an int64.
abbrev pub IsInstant : ℤ → Type 0
IsInstant t = (pos 0 ≤ℤ t) × (t ≤ℤ pos 4611686018427387904)

pub sub64_instants : (a b : ℤ) → IsInstant a → IsInstant b → sub64 a b ≡ a -ℤ b
unfolding sub64
sub64_instants a b h g = wrap64_self (a -ℤ b) (ground (arith, -ℤ_parts a b))

-- A rumor at most `n` timeouts old.
abbrev pub IsFresh : ℤ → ℕ → Rumor → Type 0
IsFresh now n r = (now -ℤ r.time) ≤ℤ pos (n * gossip_timeout)

no_gap : (d : ℤ) → ltb_ℤ (pos gossip_timeout) d ≡ false → d ≤ℤ pos 1000
no_gap d h = ground arith

gap :
    (n : ℕ) (now a b : ℤ)
    → IsInstant a
    → IsInstant b
    → ltb_ℤ (pos gossip_timeout) (sub64 a b) ≡ false
    → (now -ℤ a) ≤ℤ pos (n * gossip_timeout)
    → (now -ℤ b) ≤ℤ pos (suc n * gossip_timeout)
gap n now a b ha hb h g =
    let d : (a -ℤ b) ≤ℤ pos 1000 =
      subst (λ (c : ℤ). c ≤ℤ pos 1000) (sub64_instants a b ha hb) (no_gap (sub64 a b) h) in
    omega (arith, -ℤ_parts now a, -ℤ_parts now b, -ℤ_parts a b)

later : (n : ℕ) (now : ℤ) (rs : List Rumor) → All (IsFresh now n) rs → All (IsFresh now (suc n)) rs
later n now [] h = tt
later n now (r ∷ rs) (h, g) = (omega arith, later n now rs g)

gaps_ok-IsFresh :
    (now : ℤ) (r : Rumor) (rs : List Rumor)
    → IsInstant now
    → All (λ a. IsInstant a.time) (r ∷ rs)
    → gaps_ok now r rs ≡ true
    → All (IsFresh now (length (r ∷ rs))) (r ∷ rs)
unfolding gaps_ok
gaps_ok-IsFresh now r [] hn (h, _) e = (
  subst (λ (c : ℤ). c ≤ℤ pos 1000) (sub64_instants now r.time hn h)
      (no_gap (sub64 now r.time) (ground arith)),
  tt,
)
gaps_ok-IsFresh now r (a ∷ rs) hn (h, g) e =
    let (first, rest) = gaps_ok-IsFresh now a rs hn g (ground arith) in
    (
      gap (suc (length rs)) now a.time r.time g.0 h (ground arith) first,
      later (suc (length rs)) now (a ∷ rs) (first, rest),
    )

module _ (P : Rumor → Type 0) where
  All-insert : (r : Rumor) (rs : List Rumor) → P r → All P rs → All P (insert r rs)
  All-insert r [] h g = (h, tt)
  All-insert r (a ∷ rs) h (g, k) = elim (Bool-cases (less a r)) [
    | inl e ↦ rw e (g, All-insert r rs h k)
    | inr e ↦ rw e (h, (g, k))
  ]

  insert-All : (r : Rumor) (rs : List Rumor) → All P (insert r rs) → P r × All P rs
  insert-All r [] h = h
  insert-All r (a ∷ rs) h = elim (Bool-cases (less a r)) [
    | inl e ↦ let (g, k) = insert-All r rs (rw e at h).1 in (g, ((rw e at h).0, k))
    | inr e ↦ rw e at h
  ]

  All-sort : (rs : List Rumor) → All P rs → All P (sort rs)
  unfolding sort
  All-sort [] h = tt
  All-sort (r ∷ rs) (h, g) = All-insert r (sort rs) h (All-sort rs g)

  sort-All : (rs : List Rumor) → All P (sort rs) → All P rs
  unfolding sort
  sort-All [] h = tt
  sort-All (r ∷ rs) h = let (g, k) = insert-All r (sort rs) h in (g, sort-All rs k)

length-insert : (r : Rumor) (rs : List Rumor) → length (insert r rs) ≡ suc (length rs)
length-insert r [] = refl
length-insert r (a ∷ rs) = elim (Bool-cases (less a r)) [
  | inl e ↦ rw e (ap suc (length-insert r rs))
  | inr e ↦ rw e
]

length-sort : (rs : List Rumor) → length (sort rs) ≡ length rs
unfolding sort
length-sort [] = refl
length-sort (r ∷ rs) = length-insert r (sort rs) ∙ ap suc (length-sort rs)

in_order-IsFresh :
    (now : ℤ) (rs l : List Rumor)
    → IsInstant now
    → All (λ a. IsInstant a.time) rs
    → in_order now rs ≡ ok (true, l)
    → All (IsFresh now (length rs)) rs
unfolding in_order
in_order-IsFresh now [] l hn h e = cc
in_order-IsFresh now (r ∷ rs) l hn h e =
    gaps_ok-IsFresh now r rs hn h (ap (λ (p : Bool × List Rumor). p.0) (ok-injective e))

-- Rumors that ValidateTimeDelta accepts, of times between 1970 and the year 146 million, are each
-- no older than one timeout for every rumor there is.
pub validate_time_delta-IsFresh :
    (now : ℤ) (rumors sorted : List Rumor)
    → IsInstant now
    → All (λ a. IsInstant a.time) rumors
    → validate_time_delta now rumors ≡ ok (true, sorted)
    → All (IsFresh now (length rumors)) rumors
unfolding validate_time_delta
validate_time_delta-IsFresh now rumors sorted hn h e =
    sort-All (IsFresh now (length rumors)) rumors (
      subst (λ (n : ℕ). All (IsFresh now n) (sort rumors)) (length-sort rumors)
        (in_order-IsFresh now (sort rumors) sorted hn (All-sort (λ a. IsInstant a.time) rumors h)
          e))
