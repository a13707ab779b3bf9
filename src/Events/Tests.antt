-- ===== src/Events/Tests.antt =====
-- A handler is put on a service's event while another thread raises it.
use disgo.Prelude.{◌≡◌, refl, inl, inr, true, false, [], ◌∷◌, ◌++◌}
use disgo.Prelude.Text.{codes}
use disgo.Events.{
  EventManager, Section, on, off, raise, among, run, run_section, is_subscriber, event_of, update,
  add_subscriber, remove_subscriber, remove_first,
}
use disgo.Events.Told.{run-on}

abbrev one_there : EventManager
one_there = (codes "finished", record { subscribers = 1 ∷ []; happened_once = false }) ∷ []

-- On is done before Raise: both handlers are started.
told_both : (run (on (codes "finished") 2 ++ raise (codes "finished")) one_there).0 ≡ 1 ∷ 2 ∷ []
unfolding on raise run run_section event_of update add_subscriber is_subscriber
told_both = refl

-- Raise comes before the last section of On: the new handler is started twice.
told_twice :
    (run
      (among (on (codes "finished") 2) ([] ∷ [] ∷ raise (codes "finished") ∷ [] ∷ []))
      one_there).0
    ≡ 1 ∷ 2 ∷ 2 ∷ []
unfolding among on raise run run_section event_of update add_subscriber is_subscriber
told_twice = refl

-- After Off nobody is started but the other handler.
told_one :
    (run
      (on (codes "finished") 2 ++ off (codes "finished") 2 ++ raise (codes "finished"))
      one_there).0
    ≡ 1 ∷ []
unfolding on off raise run run_section event_of update add_subscriber is_subscriber
    remove_subscriber remove_first
told_one = refl

run-on_example :
    is_subscriber 2
      (run
        (among
          (on (codes "finished") 2)
          ([] ∷ [] ∷ (Section.raises (codes "finished") ∷ []) ∷ [] ∷ []))
        one_there).0
    ≡ true
run-on_example =
    run-on (codes "finished") 2 [] [] (Section.raises (codes "finished") ∷ []) [] one_there
      (inr (inr (inr (inl (inl refl))))) ((λ g h. cc), tt) tt
