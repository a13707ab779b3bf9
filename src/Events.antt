-- ===== src/Events.antt =====
-- commons/utils/events.go: who is told of which event. A handler stands for the value that
-- reflect.ValueOf compares; what an operation starts with `go` is a list of handlers. An
-- operation is a list of sections, each under the lock, between which other threads run theirs; a
-- section is one step, although the code takes only RLock for some that write.
pub mod Entries
pub mod Told
mod Tests
use disgo.Prelude.{ℕ, Bool, true, false, List, [], ◌∷◌, ◌++◌, ◌==◌, if◌then◌else◌}
use disgo.Prelude.Text.{Bytes, ◌=ₛ◌}

abbrev pub Handler : Type 0
Handler = ℕ

pub record Event : Type 0 where
  pub subscribers : List Handler
  pub happened_once : Bool

-- EventManager: the map of the events by their names
abbrev pub EventManager : Type 0
EventManager = List (Bytes × Event)

abbrev pub new_event : Event
new_event = record { subscribers = []; happened_once = false }

-- The event of a name, a new one where there is none.
unfoldable pub event_of : EventManager → Bytes → Event
event_of [] name = new_event
event_of ((n, e) ∷ m) name = let rest = event_of m name in if n =ₛ name then e else rest

-- addEventIfNotExists, and what is done to the event through its pointer
unfoldable pub update : EventManager → Bytes → (Event → Event) → EventManager
update [] name f = (name, f new_event) ∷ []
update ((n, e) ∷ m) name f =
    let rest = update m name f in if n =ₛ name then (n, f e) ∷ m else (n, e) ∷ rest

-- The loop of addSubscriberIfNotExists
unfoldable pub is_subscriber : Handler → List Handler → Bool
is_subscriber h [] = false
is_subscriber h (g ∷ l) = let rest = is_subscriber h l in if h == g then true else rest

-- addSubscriberIfNotExists
unfoldable pub add_subscriber : Handler → Event → Event
add_subscriber h e =
    if is_subscriber h e.subscribers then e else record e { subscribers = e.subscribers ++ h ∷ [] }

-- The first subscriber that is the handler is cut out.
unfoldable pub remove_first : Handler → List Handler → List Handler
remove_first h [] = []
remove_first h (g ∷ l) = let rest = remove_first h l in if h == g then l else g ∷ rest

unfoldable pub remove_subscriber : Handler → Event → Event
remove_subscriber h e = record e { subscribers = remove_first h e.subscribers }

abbrev pub happened : Event → Event
happened e = record e { happened_once = true }

-- A section of an operation, from a Lock or RLock to its Unlock.
pub data Section : Type 0 where
  adds_event : Bytes → Section
  subscribes : Bytes → Handler → Section
  starts_late : Bytes → Handler → Section
  removes : Bytes → Handler → Section
  raises : Bytes → Section

-- What a section does: the handlers that it starts, and the manager.
unfoldable pub run_section : Section → EventManager → List Handler × EventManager
run_section (Section.adds_event name) m = ([], update m name λ e. e)
run_section (Section.subscribes name h) m = ([], update m name (add_subscriber h))
run_section (Section.starts_late name h) m =
    (if (event_of m name).happened_once then h ∷ [] else [], m)
run_section (Section.removes name h) m = ([], update m name (remove_subscriber h))
run_section (Section.raises name) m = ((event_of m name).subscribers, update m name happened)

-- On, Off and Raise: their sections, in their order.
unfoldable pub on : Bytes → Handler → List Section
on name h = Section.adds_event name ∷ Section.subscribes name h ∷ Section.starts_late name h ∷ []

unfoldable pub off : Bytes → Handler → List Section
off name h = Section.adds_event name ∷ Section.removes name h ∷ []

unfoldable pub raise : Bytes → List Section
raise name = Section.adds_event name ∷ Section.raises name ∷ []

-- The sections of all threads in the order in which they run: the handlers that are started, and the
-- manager.
unfoldable pub run : List Section → EventManager → List Handler × EventManager
run [] m = ([], m)
run (s ∷ sections) m =
    let (started, m₁) = run_section s m in
    let (later, m₂) = run sections m₁ in (started ++ later, m₂)

-- One thread's sections with what the other threads run before each of them, and at last after them.
unfoldable pub among : List Section → List (List Section) → List Section
among [] [] = []
among [] (after ∷ others) = after
among (s ∷ own) [] = s ∷ own
among (s ∷ own) (before ∷ others) = before ++ s ∷ among own others
