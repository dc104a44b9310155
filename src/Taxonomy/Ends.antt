-- ===== src/Taxonomy/Ends.antt =====
-- What the operations of taxonomyService.js and taxonomyPublicationService.js do to the values and to the
-- version of an organization's catalog.
use civitas.Prelude.{◌+◌, ◌≡◌, ◌⊎◌, Bool, true, false, Option, none, some, List, String, inl, inr}
use civitas.Prelude.Bodies.{
  Outcome, returned, threw, Body, ◌>>=◌, pure, gets, modify, throw_if, or_throw, Left, Keeps,
}
use civitas.Taxonomy.{Failure, Definition, Store}
use civitas.Taxonomy.Checks.{Fault}
use civitas.Taxonomy.Calls.{Call, check, moved}
use civitas.Taxonomy.Sure.{Returns, Sure, version_of, VersionIs}

-- A state with the values and the version of a first one, and one with the next version.
module _ {W : Type 0} (organization_id : String) (first : Store W) where
  abbrev pub Same : Store W → Type 0
  Same s =
      (s.values ≡ first.values) × (version_of organization_id s ≡ version_of organization_id first)

  abbrev pub Next : Store W → Type 0
  Next s = version_of organization_id s ≡ version_of organization_id first + 1

  abbrev pub Fine : Store W → Type 0
  Fine s = Same s ⊎ Next s

  unfoldable pub Ends : {A : Type 0} → Body Failure (Store W) A → Type 0
  Ends m = (s : Store W) → Same s → Left Fine (m s)

  pub Left-moved :
      {A : Type 0} (s : Store W) (o : Outcome Failure W A) → Same s → Left Same (moved s o)
  Left-moved s (returned a w) j = j
  Left-moved s (threw e w) j = j

  Ends-bind_of :
      {A B : Type 0} (o : Outcome Failure (Store W) A) (f : A → Call W B)
      → Left Same o
      → ((a : A) → Ends (f a))
      → Left Fine (elim o [ returned a t ↦ f a t | threw e t ↦ threw e t ])
  unfolding Ends
  Ends-bind_of (returned a t) f h k = k a t h
  Ends-bind_of (threw e t) f h k = inl h

  pub Ends-bind :
      {A B : Type 0} (m : Call W A) (f : A → Call W B)
      → Keeps Same m
      → ((a : A) → Ends (f a))
      → Ends (m >>= f)
  unfolding Ends
  Ends-bind m f h k s j = Ends-bind_of (m s) f (h s j) k

  pub Ends-pure : {A : Type 0} (a : A) → Ends (pure a)
  unfolding Ends
  Ends-pure a s j = inl j

  pub Ends-gets :
      {A B : Type 0} (g : Store W → A) (f : A → Call W B)
      → ((a : A) → Ends (f a))
      → Ends (gets g >>= f)
  unfolding Ends
  Ends-gets g f k s j = k (g s) s j

  pub Ends-modify :
      {B : Type 0} (change : List (String × Definition) → List (String × Definition))
      (f : Unit {0} → Call W B)
      → ((u : Unit {0}) → Ends (f u))
      → Ends (modify (λ s. record s { definitions = change s.definitions }) >>= f)
  unfolding Ends
  Ends-modify change f k s j = k tt (record s { definitions = change s.definitions }) j

  pub Ends-check :
      {B : Type 0} (fault : Fault) (f : Unit {0} → Call W B)
      → ((u : Unit {0}) → Ends (f u))
      → Ends (check fault >>= f)
  unfolding Ends
  Ends-check none f k s j = k tt s j
  Ends-check (some code) f k s j = inl j

  pub Ends-throw_if :
      {B : Type 0} (test : Bool) (e : Failure) (f : Unit {0} → Call W B)
      → ((u : Unit {0}) → Ends (f u))
      → Ends (throw_if test e >>= f)
  unfolding Ends
  Ends-throw_if true e f k s j = inl j
  Ends-throw_if false e f k s j = k tt s j

  pub Ends-or_throw :
      {A B : Type 0} (o : Option A) (e : Failure) (f : A → Call W B)
      → ((a : A) → Ends (f a))
      → Ends (or_throw o e >>= f)
  unfolding Ends
  Ends-or_throw none e f k s j = inl j
  Ends-or_throw (some a) e f k s j = k a s j

  pub Ends-found :
      {A B : Type 0} (g : Store W → Option A) (e : Failure) (f : A → Call W B)
      → ((a : A) → Ends (f a))
      → Ends ((gets g >>= λ o. or_throw o e) >>= f)
  unfolding Ends
  Ends-found g e f k s j = Ends-or_throw (g s) e f k s j

  -- A body that returns and raises the version.
  Left-Next : {A : Type 0} (o : Outcome Failure (Store W) A) → Returns Next o → Left Fine o
  Left-Next (returned a s) h = inr h
  Left-Next (threw e s) h = elim h [ ]

  pub Ends-Sure :
      {A : Type 0} (m : Call W A)
      → Sure
          (VersionIs organization_id (version_of organization_id first))
          (VersionIs organization_id (version_of organization_id first + 1))
          m
      → Ends m
  unfolding Ends
  Ends-Sure m h s (_, version) = Left-Next (m s) (h s version)
