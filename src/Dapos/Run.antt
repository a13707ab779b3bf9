-- ===== src/Dapos/Run.antt =====
-- Handlers that may return early: the state of the node, and steps that go on, stop or panic.
use disgo.Prelude.{◌≡◌, refl, subst}
use disgo.Types.Errors.{Error, Result, ok, err, ok-injective}
use disgo.Types.Errors
use disgo.Store.{Stores}

-- The database and the cache. An object that the cache holds by pointer is written through to it.
pub record State (s : Stores) : Type 0 where
  pub db : s.Db
  pub cache : s.Cache

-- A step of a handler over results `R`: its value, the handler's early return, or a panic.
pub data Run (R A : Type 0) : Type 0 where
  next : A → Run R A
  stop : R → Run R A
  crash : Run R A

infixl 5 ◌>>=◌
abbrev pub ◌>>=◌ : {R A B : Type 0} → Run R A → (A → Run R B) → Run R B
next a >>= f = f a
stop r >>= f = stop r
crash >>= f = crash

-- `if err != nil { …; return }`
abbrev pub or_stop : {R A : Type 0} → Result A → (Error → R) → Run R A
or_stop (ok a) f = next a
or_stop (err e) f = stop (f e)
or_stop Errors.panic f = crash

-- The end of a handler.
abbrev pub finish : {R : Type 0} → Run R R → Result R
finish (next r) = ok r
finish (stop r) = ok r
finish crash = Errors.panic

-- A property of the handler's result, whether it returns early or at its end.
unfoldable pub Ends : {R A : Type 0} → (R → Type 0) → (A → Type 0) → Run R A → Type 0
Ends Q P (next a) = P a
Ends Q P (stop r) = Q r
Ends Q P crash = Unit {0}

module _ {R A : Type 0} (Q : R → Type 0) (P : A → Type 0) where
  pub Ends-next : (a : A) → P a → Ends Q P (next a)
  unfolding Ends
  Ends-next a h = h

  pub Ends-stop : (r : R) → Q r → Ends Q P (stop r)
  unfolding Ends
  Ends-stop r h = h

pub Ends-weaken :
    {R A : Type 0} (Q Q' : R → Type 0) (P : A → Type 0) (m : Run R A)
    → ((r : R) → Q r → Q' r)
    → Ends Q P m
    → Ends Q' P m
unfolding Ends
Ends-weaken Q Q' P (next a) f h = h
Ends-weaken Q Q' P (stop r) f h = f r h
Ends-weaken Q Q' P crash f h = tt

-- The same, for the end of a handler.
pub Ends-weaken_both :
    {R : Type 0} (Q Q' : R → Type 0) (m : Run R R)
    → ((r : R) → Q r → Q' r)
    → Ends Q Q m
    → Ends Q' Q' m
unfolding Ends
Ends-weaken_both Q Q' (next a) f h = f a h
Ends-weaken_both Q Q' (stop r) f h = f r h
Ends-weaken_both Q Q' crash f h = tt

module _ {R A B : Type 0} (Q : R → Type 0) where
  pub Ends-bind :
      (P : A → Type 0) (P' : B → Type 0) (m : Run R A) (f : A → Run R B)
      → Ends Q P m
      → ((a : A) → P a → Ends Q P' (f a))
      → Ends Q P' (m >>= f)
  unfolding Ends
  Ends-bind P P' (next a) f h k = k a h
  Ends-bind P P' (stop r) f h k = h
  Ends-bind P P' crash f h k = tt

  pub Ends-or_stop :
      (P' : B → Type 0) (m : Result A) (g : Error → R) (f : A → Run R B)
      → ((a : A) → m ≡ ok a → Ends Q P' (f a))
      → ((e : Error) → m ≡ err e → Q (g e))
      → Ends Q P' (or_stop m g >>= f)
  unfolding Ends
  Ends-or_stop P' (ok a) g f h k = h a refl
  Ends-or_stop P' (err e) g f h k = k e refl
  Ends-or_stop P' Errors.panic g f h k = tt

-- A run that goes on to its end, with a result of which `P` holds.
abbrev pub Reaches : {R A : Type 0} → (A → Type 0) → Run R A → Type 0
Reaches {A = A} P m = (a : A) × (m ≡ next a) × P a

pub Reaches-or_stop :
    {R A B : Type 0} (P : B → Type 0) (m : Result A) (g : Error → R) (f : A → Run R B) (a : A)
    → m ≡ ok a
    → Reaches P (f a)
    → Reaches P (or_stop m g >>= f)
Reaches-or_stop P m g f a e r = rw e r

pub Reaches-bind :
    {R A B : Type 0} (P : B → Type 0) (m : Run R A) (f : A → Run R B) (a : A)
    → m ≡ next a
    → Reaches P (f a)
    → Reaches P (m >>= f)
Reaches-bind P m f a e r = rw e r

subst_ok : {R : Type 0} (Q : R → Type 0) {a r : R} → Q a → ok a ≡ ok r → Q r
subst_ok Q q e = subst Q (ok-injective e) q

panic_ne_ok : {R : Type 0} {r : R} → Errors.panic ≡ ok r → ⊥
panic_ne_ok e = cc

-- What holds of every end of a handler holds of its result.
pub Ends-finish :
    {R : Type 0} (Q : R → Type 0) (m : Run R R) {r : R} → Ends Q Q m → finish m ≡ ok r → Q r
unfolding Ends
Ends-finish Q (next a) h e = subst_ok Q h e
Ends-finish Q (stop a) h e = subst_ok Q h e
Ends-finish Q crash h e = absurd (panic_ne_ok e)
