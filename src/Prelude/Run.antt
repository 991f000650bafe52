-- ===== src/Prelude/Run.antt =====
-- What a method of a stateful object runs in: the object's state, and exceptions. What was written
-- before an exception stays written.
use mathlib.Core.Path.{◌≡◌, sym, subst}
use mathlib.Core.Option.{Option, none, some, some-injective}
use mathlib.Core.Bool.{Bool, true, false}
use mathlib.Core.List.{List, [], ◌∷◌}
use native.Mathlib.Omega.{arith}

pub data Result (A : Type 0) : Type 0 where
  ok : A → Result A
  raised : Result A

abbrev pub Run : Type 0 → Type 0 → Type 0
Run S A = S → Result A × S

abbrev pub answer : {A : Type 0} → Option A → Result A
answer none = raised
answer (some a) = ok a

abbrev pub accepted : Bool → Option (Unit {0})
accepted true = some tt
accepted false = none

module _ {S : Type 0} {A : Type 0} where
  abbrev pub pure : A → Run S A
  pure a s = (ok a, s)

  abbrev pub gets : (S → A) → Run S A
  gets g s = (ok (g s), s)

  -- `try: m except Exception: handler`
  abbrev pub try_except : Run S A → Run S A → Run S A
  try_except m handler s = let (r, s') = m s in elim r [ ok a ↦ (ok a, s') | raised ↦ handler s' ]

  -- A method of an object that the state holds.
  abbrev pub zoom : {T : Type 0} → (T → S) → (S → T → T) → Run S A → Run T A
  zoom get put m t = let (r, s) = m (get t) in (r, put s t)

module _ {S : Type 0} where
  abbrev pub modify : (S → S) → Run S (Unit {0})
  modify g s = (ok tt, g s)

  infixl 5 ◌>>=◌ ◌>>◌
  abbrev pub ◌>>=◌ : {A B : Type 0} → Run S A → (A → Run S B) → Run S B
  ◌>>=◌ m g s = let (r, s') = m s in elim r [ ok a ↦ g a s' | raised ↦ (raised, s') ]

  abbrev pub ◌>>◌ : {A B : Type 0} → Run S A → Run S B → Run S B
  m >> k = m >>= λ _. k

  -- `for x in xs: body(x)`
  abbrev pub for_each : {A : Type 0} → (A → Run S (Unit {0})) → List A → Run S (Unit {0})
  for_each body [] = pure tt
  for_each body (x ∷ xs) = body x >> for_each body xs

-- The call returned, with a result and a state as `P` says.
abbrev pub Returns : {S A : Type 0} → (A → S → Type 0) → Result A × S → Type 0
Returns P (ok a, s) = P a s
Returns P (raised, s) = ⊥

module _ {S A B : Type 0} {P : A → S → Type 0} (Q : B → S → Type 0) where
  step-Returns :
      (r : Result A) (s : S) (g : A → Run S B)
      → Returns P (r, s)
      → ((a : A) (s' : S) → P a s' → Returns Q (g a s'))
      → Returns {S = S} {A = B} Q (elim r [ ok a ↦ g a s | raised ↦ (raised, s) ])
  step-Returns (ok a) s g h k = k a s h
  step-Returns raised s g h k = h

  pub Returns-bind :
      (m : Run S A) (g : A → Run S B) (s : S)
      → Returns P (m s)
      → ((a : A) (s' : S) → P a s' → Returns Q (g a s'))
      → Returns Q ((m >>= g) s)
  Returns-bind m g s = step-Returns (m s).0 (m s).1 g

module _ {S A : Type 0} (P : A → S → Type 0) where
  pub Returns-answer :
      (a : A) (reply : Option A) (s : S) → reply ≡ some a → P a s → Returns P (answer reply, s)
  Returns-answer a none s e h = absurd (ground arith)
  Returns-answer a (some b) s e h = subst (λ x. P x s) (some-injective _ _ (sym e)) h

  step-try :
      (r : Result A) (s : S) (handler : Run S A)
      → Returns P (r, s)
      → Returns P (elim r [ ok a ↦ (ok a, s) | raised ↦ handler s ])
  step-try (ok a) s handler h = h
  step-try raised s handler h = absurd h

  -- What a `try` body that returns has done, the whole statement has done.
  pub Returns-try :
      (m handler : Run S A) (s : S) → Returns P (m s) → Returns P (try_except m handler s)
  Returns-try m handler s = step-try (m s).0 (m s).1 handler

module _ {S A : Type 0} {P Q : A → S → Type 0} where
  pub Returns-weaken :
      (r : Result A × S) → Returns P r → ((a : A) (s : S) → P a s → Q a s) → Returns Q r
  Returns-weaken (ok a, s) h k = k a s h
  Returns-weaken (raised, s) h k = h
