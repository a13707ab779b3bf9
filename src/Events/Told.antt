-- ===== src/Events/Told.antt =====
-- That nobody who is on an event of commons/utils/events.go misses it, whichever comes first.
use disgo.Prelude.{
  ◌≢◌, ◌⊎◌, ap, sym, subst, All, Any, ◌≡◌, refl, ◌∙◌, true, Bool-cases, inl, inr, List, [], ◌∷◌,
  ◌++◌, arith,
}
use disgo.Prelude.Text.{Bytes, ◌=ₛ◌, =ₛ_iff}
use disgo.Events.{
  Handler, Event, EventManager, Section, event_of, is_subscriber, add_subscriber, remove_subscriber,
  happened, run_section, run, on, among,
}
use disgo.Events.Entries.{
  event_of-update, is_subscriber-add, happened_once-add, event_of-update_other, update-keeps,
  is_subscriber-more, started-left, started-right,
}

module _ (name : Bytes) (h : Handler) where
  abbrev Happened : EventManager → Type 0
  Happened m = (event_of m name).happened_once ≡ true

  abbrev Subscribed : EventManager → Type 0
  Subscribed m = is_subscriber h (event_of m name).subscribers ≡ true

  -- Not the section of an Off of the event.
  abbrev pub Leaves : Section → Type 0
  Leaves s = (g : Handler) → s ≢ Section.removes name g

  abbrev pub IsRaise : Section → Type 0
  IsRaise s = s ≡ Section.raises name

  section-Happened : (s : Section) (m : EventManager) → Happened m → Happened (run_section s m).1
  unfolding run_section remove_subscriber
  section-Happened (Section.adds_event n) m e =
      update-keeps (λ e. e.happened_once ≡ true) m name n _ (λ e h. h) e
  section-Happened (Section.subscribes n g) m e =
      update-keeps (λ e. e.happened_once ≡ true) m name n _ (λ e h. happened_once-add g e ∙ h) e
  section-Happened (Section.starts_late n g) m e = e
  section-Happened (Section.removes n g) m e =
      update-keeps (λ e. e.happened_once ≡ true) m name n _ (λ e h. h) e
  section-Happened (Section.raises n) m e =
      update-keeps (λ e. e.happened_once ≡ true) m name n _ (λ e h. refl) e

  section-Subscribed :
      (s : Section) (m : EventManager) → Leaves s → Subscribed m → Subscribed (run_section s m).1
  unfolding run_section
  section-Subscribed (Section.adds_event n) m leaves e =
      update-keeps (λ e. is_subscriber h e.subscribers ≡ true) m name n _ (λ e h. h) e
  section-Subscribed (Section.subscribes n g) m leaves e =
      update-keeps (λ e. is_subscriber h e.subscribers ≡ true) m name n _ (is_subscriber-more h g) e
  section-Subscribed (Section.starts_late n g) m leaves e = e
  section-Subscribed (Section.removes n g) m leaves e = elim (Bool-cases (n =ₛ name)) [
    | inl same ↦
        absurd (leaves g (ap (λ (n : Bytes). Section.removes n g) ((=ₛ_iff n name).0 same)))
    | inr away ↦
        ap (λ (e : Event). is_subscriber h e.subscribers) (event_of-update_other m name n _ away)
        ∙ e
  ]
  section-Subscribed (Section.raises n) m leaves e =
      update-keeps (λ e. is_subscriber h e.subscribers ≡ true) m name n _ (λ e h. h) e

  raise-Happened : (s : Section) (m : EventManager) → IsRaise s → Happened (run_section s m).1
  unfolding run_section
  raise-Happened s m same =
      subst (λ (s : Section). Happened (run_section s m).1) (sym same)
        (ap (λ (e : Event). e.happened_once) (event_of-update m name happened))

  raise-starts :
      (s : Section) (m : EventManager)
      → IsRaise s
      → Subscribed m
      → is_subscriber h (run_section s m).0 ≡ true
  unfolding run_section
  raise-starts s m same e = ap (λ (s : Section). is_subscriber h (run_section s m).0) same ∙ e

  -- Whether the handler is started.
  abbrev pub IsTold : List Section → EventManager → Type 0
  IsTold sections m = is_subscriber h (run sections m).0 ≡ true

  IsTold-cons :
      (s : Section) (sections : List Section) (m : EventManager)
      → IsTold sections (run_section s m).1
      → IsTold (s ∷ sections) m
  unfolding run
  IsTold-cons s sections m told = started-right h (run_section s m).0 _ told

  IsTold-raise :
      (s : Section) (sections : List Section) (m : EventManager)
      → IsRaise s
      → Subscribed m
      → IsTold (s ∷ sections) m
  unfolding run
  IsTold-raise s sections m same e = started-left h (run_section s m).0 _ (raise-starts s m same e)

  IsTold-after :
      (d : List Section) (m : EventManager)
      → Subscribed m
      → All Leaves d
      → Any IsRaise d
      → IsTold d m
  IsTold-after [] m e leaves raised = absurd raised
  IsTold-after (s ∷ d) m e leaves (inl same) = IsTold-raise s d m same e
  IsTold-after (s ∷ d) m e leaves (inr raised) =
      IsTold-cons s d m
        (IsTold-after d (run_section s m).1 (section-Subscribed s m leaves.0 e) leaves.1 raised)

  IsTold-late :
      (d : List Section) (m : EventManager) → Happened m → IsTold (Section.starts_late name h ∷ d) m
  unfolding run run_section is_subscriber
  IsTold-late d m e = rw e (ground arith)

  section-late :
      (m : EventManager) → Subscribed m → Subscribed (run_section (Section.starts_late name h) m).1
  unfolding run_section
  section-late m e = e

  IsTold-between :
      (c d : List Section) (m : EventManager)
      → Subscribed m
      → All Leaves c
      → All Leaves d
      → Happened m ⊎ (Any IsRaise c ⊎ Any IsRaise d)
      → IsTold (c ++ Section.starts_late name h ∷ d) m
  IsTold-between [] d m e left left' (inl before) = IsTold-late d m before
  IsTold-between [] d m e left left' (inr (inl raised)) = absurd raised
  IsTold-between [] d m e left left' (inr (inr raised)) =
      IsTold-cons (Section.starts_late name h) d m
        (IsTold-after d _ (section-late m e) left' raised)
  IsTold-between (s ∷ c) d m e left left' (inl before) = IsTold-cons s _ m (
      IsTold-between c d _ (section-Subscribed s m left.0 e) left.1 left'
        (inl (section-Happened s m before)))
  IsTold-between (s ∷ c) d m e left left' (inr (inl (inl same))) = IsTold-raise s _ m same e
  IsTold-between (s ∷ c) d m e left left' (inr (inl (inr raised))) =
      IsTold-cons s _ m
        (IsTold-between c d _ (section-Subscribed s m left.0 e) left.1 left' (inr (inl raised)))
  IsTold-between (s ∷ c) d m e left left' (inr (inr raised)) =
      IsTold-cons s _ m
        (IsTold-between c d _ (section-Subscribed s m left.0 e) left.1 left' (inr (inr raised)))

  -- Sections that run before others: a raise among them has happened when those begin.
  IsTold-before :
      (X : Type 0) (before rest : List Section) (m : EventManager)
      → ((m : EventManager) → Happened m ⊎ X → IsTold rest m)
      → Happened m ⊎ (Any IsRaise before ⊎ X)
      → IsTold (before ++ rest) m
  IsTold-before X [] rest m told (inl e) = told m (inl e)
  IsTold-before X [] rest m told (inr (inl raised)) = absurd raised
  IsTold-before X [] rest m told (inr (inr e)) = told m (inr e)
  IsTold-before X (s ∷ before) rest m told (inl e) =
      IsTold-cons s _ m (IsTold-before X before rest _ told (inl (section-Happened s m e)))
  IsTold-before X (s ∷ before) rest m told (inr (inl (inl same))) =
      IsTold-cons s _ m (IsTold-before X before rest _ told (inl (raise-Happened s m same)))
  IsTold-before X (s ∷ before) rest m told (inr (inl (inr raised))) =
      IsTold-cons s _ m (IsTold-before X before rest _ told (inr (inl raised)))
  IsTold-before X (s ∷ before) rest m told (inr (inr e)) =
      IsTold-cons s _ m (IsTold-before X before rest _ told (inr (inr e)))

  now-Subscribed : (m : EventManager) → Subscribed (run_section (Section.subscribes name h) m).1
  unfolding run_section
  now-Subscribed m =
      ap (λ (e : Event). is_subscriber h e.subscribers) (event_of-update m name (add_subscriber h))
      ∙ is_subscriber-add h (event_of m name)

  still :
      (X : Type 0) (s : Section) (m : EventManager)
      → Happened m ⊎ X
      → Happened (run_section s m).1 ⊎ X
  still X s m (inl e) = inl (section-Happened s m e)
  still X s m (inr e) = inr e

  -- A handler that is put on an event is started, whatever the sections of other threads before,
  -- between and after those of On, if the event has been raised before or one of them raises it,
  -- and no Off of the event runs after the handler's entry. Each section is taken for one step.
  pub run-on :
      (a b c d : List Section) (m : EventManager)
      → ((event_of m name).happened_once ≡ true)
        ⊎ (Any IsRaise a ⊎ (Any IsRaise b ⊎ (Any IsRaise c ⊎ Any IsRaise d)))
      → All Leaves c
      → All Leaves d
      → is_subscriber h (run (among (on name h) (a ∷ b ∷ c ∷ d ∷ [])) m).0 ≡ true
  unfolding among on
  run-on a b c d m raised left left' =
      let second : (m : EventManager) → Happened m ⊎ (Any IsRaise c ⊎ Any IsRaise d) → IsTold _ m =
        λ m e.
          IsTold-cons (Section.subscribes name h) (c ++ Section.starts_late name h ∷ d) m
            (IsTold-between c d _ (now-Subscribed m) left left' (still _ _ m e)) in
      IsTold-before _ a _ m
        (λ m e.
          IsTold-cons (Section.adds_event name) _ m (IsTold-before _ b _ _ second (still _ _ m e)))
        raised
