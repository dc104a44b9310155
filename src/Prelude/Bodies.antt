-- ===== src/Prelude/Bodies.antt =====
-- Bodies that read and change a state and may throw: what a body has changed stays when it throws.
use mathlib.Core.Option.{Option, none, some}
use mathlib.Core.Bool.{Bool, true, false}
use mathlib.Core.List.{List, [], ◌∷◌}

pub data Outcome (E S A : Type 0) : Type 0 where
  returned : A → S → Outcome E S A
  threw : E → S → Outcome E S A

abbrev pub Body : Type 0 → Type 0 → Type 0 → Type 0
Body E S A = S → Outcome E S A

module _ {E S : Type 0} where
  infixl 5 ◌>>=◌ ◌>>◌
  abbrev pub ◌>>=◌ : {A B : Type 0} → Body E S A → (A → Body E S B) → Body E S B
  ◌>>=◌ m f s = elim (m s) [ returned a t ↦ f a t | threw e t ↦ threw e t ]

  abbrev pub ◌>>◌ : {A B : Type 0} → Body E S A → Body E S B → Body E S B
  m >> k = m >>= λ _. k

  abbrev pub pure : {A : Type 0} → A → Body E S A
  pure a s = returned a s

  abbrev pub throw : {A : Type 0} → E → Body E S A
  throw e s = threw e s

  abbrev pub gets : {A : Type 0} → (S → A) → Body E S A
  gets f s = returned (f s) s

  abbrev pub modify : (S → S) → Body E S (Unit {0})
  modify f s = returned tt (f s)

  -- `if (test) throw e`.
  abbrev pub throw_if : Bool → E → Body E S (Unit {0})
  throw_if true e s = threw e s
  throw_if false e s = returned tt s

  abbrev pub or_throw : {A : Type 0} → Option A → E → Body E S A
  or_throw none e s = threw e s
  or_throw (some a) e s = returned a s

  abbrev pub for_each : {A : Type 0} → List A → (A → Body E S (Unit {0})) → Body E S (Unit {0})
  for_each [] f s = returned tt s
  for_each (x ∷ xs) f s = (f x >>= λ _. for_each xs f) s

  abbrev pub state_of : {A : Type 0} → Outcome E S A → S
  state_of (returned a s) = s
  state_of (threw e s) = s

  -- What a body keeps of its state, however it ends.
  module _ (J : S → Type 0) where
    abbrev pub Left : {A : Type 0} → Outcome E S A → Type 0
    Left (returned a s) = J s
    Left (threw e s) = J s

    abbrev pub Keeps : {A : Type 0} → Body E S A → Type 0
    Keeps m = (s : S) → J s → Left (m s)

    Left-bind :
        {A B : Type 0} (o : Outcome E S A) (f : A → Body E S B)
        → Left o
        → ((a : A) → Keeps (f a))
        → Left (elim o [ returned a t ↦ f a t | threw e t ↦ threw e t ])
    Left-bind (returned a t) f h k = k a t h
    Left-bind (threw e t) f h k = h

    pub Keeps-bind :
        {A B : Type 0} (m : Body E S A) (f : A → Body E S B)
        → Keeps m
        → ((a : A) → Keeps (f a))
        → Keeps (m >>= f)
    Keeps-bind m f h k s j = Left-bind (m s) f (h s j) k

    pub Keeps-throw_if :
        {B : Type 0} (test : Bool) (e : E) (f : Unit {0} → Body E S B)
        → Keeps (f tt)
        → Keeps (throw_if test e >>= f)
    Keeps-throw_if true e f h s j = j
    Keeps-throw_if false e f h s j = h s j

    pub Keeps-or_throw :
        {A B : Type 0} (o : Option A) (e : E) (f : A → Body E S B)
        → ((a : A) → Keeps (f a))
        → Keeps (or_throw o e >>= f)
    Keeps-or_throw none e f h s j = j
    Keeps-or_throw (some a) e f h s j = h a s j

    pub Keeps-for_each :
        {A : Type 0} (xs : List A) (f : A → Body E S (Unit {0}))
        → ((a : A) → Keeps (f a))
        → Keeps (for_each xs f)
    Keeps-for_each [] f h s j = j
    Keeps-for_each (x ∷ xs) f h s j =
        Left-bind (f x s) (λ _. for_each xs f) (h x s j) (λ _. Keeps-for_each xs f h)

    pub Left-state_of : {A : Type 0} (o : Outcome E S A) → Left o → J (state_of o)
    Left-state_of (returned a s) h = h
    Left-state_of (threw e s) h = h
