-- ===== src/Events/Entries.antt =====
-- Lookup and change of the events of commons/utils/events.go, and their subscribers.
use disgo.Prelude.{
  ap, sym, subst, false, ◌≡◌, refl, ◌∙◌, true, Bool-cases, inl, inr, List, [], ◌∷◌, ◌++◌, ◌==◌,
  if◌then◌else◌, arith,
}
use disgo.Prelude.Text.{Bytes, ◌=ₛ◌, =ₛ_refl, =ₛ_iff}
use disgo.Events.{Handler, Event, EventManager, event_of, update, is_subscriber, add_subscriber}

pub event_of-update :
    (m : EventManager) (name : Bytes) (f : Event → Event)
    → event_of (update m name f) name ≡ f (event_of m name)
unfolding event_of update
event_of-update [] name f = rw (=ₛ_refl name) refl
event_of-update ((n, e) ∷ m) name f = elim (Bool-cases (n =ₛ name)) [
  | inl same ↦ rw same (rw same refl)
  | inr away ↦ rw away (rw away (event_of-update m name f))
]

pub is_subscriber-append :
    (h g : Handler) (l : List Handler)
    → is_subscriber h (l ++ g ∷ []) ≡ (if is_subscriber h l then true else h == g)
unfolding is_subscriber
is_subscriber-append h g [] = ground arith
is_subscriber-append h g (k ∷ l) = ground (arith, is_subscriber-append h g l)

pub is_subscriber-add :
    (h : Handler) (e : Event) → is_subscriber h (add_subscriber h e).subscribers ≡ true
unfolding add_subscriber
is_subscriber-add h e = elim (Bool-cases (is_subscriber h e.subscribers)) [
  | inl there ↦ rw there there
  | inr away ↦ rw away (is_subscriber-append h h e.subscribers ∙ ground (arith, away))
]

pub happened_once-add :
    (h : Handler) (e : Event) → (add_subscriber h e).happened_once ≡ e.happened_once
unfolding add_subscriber
happened_once-add h e = elim (Bool-cases (is_subscriber h e.subscribers)) [
  | inl there ↦ rw there refl
  | inr away ↦ rw away refl
]

pub event_of-update_other :
    (m : EventManager) (name other : Bytes) (f : Event → Event)
    → (other =ₛ name) ≡ false
    → event_of (update m other f) name ≡ event_of m name
unfolding event_of update
event_of-update_other [] name other f away = rw away refl
event_of-update_other ((n, e) ∷ m) name other f away = elim (Bool-cases (n =ₛ other)) [
  | inl same ↦
      let apart : (n =ₛ name) ≡ false =
        ap (λ (a : Bytes). a =ₛ name) ((=ₛ_iff n other).0 same) ∙ away in
      rw same (rw apart refl)
  | inr differ ↦
      rw differ
        (ap (λ (r : Event). if n =ₛ name then e else r) (event_of-update_other m name other f away))
]

-- What an operation on one event leaves of a property of an event.
pub update-keeps :
    (P : Event → Type 0) (m : EventManager) (name other : Bytes) (f : Event → Event)
    → ((e : Event) → P e → P (f e))
    → P (event_of m name)
    → P (event_of (update m other f) name)
update-keeps P m name other f keeps h = elim (Bool-cases (other =ₛ name)) [
  | inl same ↦
      subst (λ (n : Bytes). P (event_of (update m n f) name)) (sym ((=ₛ_iff other name).0 same))
        (subst P (sym (event_of-update m name f)) (keeps (event_of m name) h))
  | inr away ↦ subst P (sym (event_of-update_other m name other f away)) h
]

pub is_subscriber-more :
    (h g : Handler) (e : Event)
    → is_subscriber h e.subscribers ≡ true
    → is_subscriber h (add_subscriber g e).subscribers ≡ true
unfolding add_subscriber
is_subscriber-more h g e there = elim (Bool-cases (is_subscriber g e.subscribers)) [
  | inl old ↦ rw old there
  | inr new ↦ rw new (is_subscriber-append h g e.subscribers ∙ ground (arith, there))
]

pub started-left :
    (h : Handler) (a b : List Handler) → is_subscriber h a ≡ true → is_subscriber h (a ++ b) ≡ true
unfolding is_subscriber
started-left h [] b e = cc
started-left h (g ∷ a) b e = ground (arith, e, started-left h a b)

pub started-right :
    (h : Handler) (a b : List Handler) → is_subscriber h b ≡ true → is_subscriber h (a ++ b) ≡ true
unfolding is_subscriber
started-right h [] b e = e
started-right h (g ∷ a) b e = ground (arith, e, started-right h a b)
