-- ===== src/Prelude/Sorting.antt =====
-- Python's `sorted`, and what it makes of a list.
use mathlib.Core.Path.{◌≡◌}
use mathlib.Core.Bool.{Bool, true, false}
use mathlib.Core.List.{List, [], ◌∷◌}
use mmp_meridian.Prelude.Tests.{if◌then◌else◌, by_test}
use mmp_meridian.Prelude.Lists.{All, All-weaken}

module _ {A : Type 0} where
  -- Equal elements keep their order: `before x y` says that the key of `x` comes strictly first.
  abbrev pub place : (A → A → Bool) → A → List A → List A
  place before x [] = x ∷ []
  place before x (y ∷ ys) = if before y x then y ∷ place before x ys else x ∷ y ∷ ys

  abbrev pub sorted : (A → A → Bool) → List A → List A
  sorted before [] = []
  sorted before (x ∷ xs) = place before x (sorted before xs)

  -- Each element is below all that follow it.
  abbrev pub IsSorted : (A → A → Type 0) → List A → Type 0
  IsSorted P [] = Unit
  IsSorted P (x ∷ xs) = All (P x) xs × IsSorted P xs

  module _ (before : A → A → Bool) where
    place-All : (P : A → Type 0) (x : A) (xs : List A) → P x → All P xs → All P (place before x xs)
    place-All P x [] p ps = (p, tt)
    place-All P x (y ∷ ys) p (q, qs) =
        by_test (All P) (before y x) (y ∷ place before x ys) (x ∷ y ∷ ys)
          (λ _. (q, place-All P x ys p qs)) (λ _. (p, (q, qs)))

    pub sorted-All : (P : A → Type 0) (xs : List A) → All P xs → All P (sorted before xs)
    sorted-All P [] ps = tt
    sorted-All P (x ∷ xs) (p, ps) = place-All P x (sorted before xs) p (sorted-All P xs ps)

    module _ (P : A → A → Type 0) (trans : (x y z : A) → P x y → P y z → P x z)
        (yes : (x y : A) → before x y ≡ true → P x y)
        (no : (x y : A) → before x y ≡ false → P y x) where
      place-IsSorted : (x : A) (xs : List A) → IsSorted P xs → IsSorted P (place before x xs)
      place-IsSorted x [] s = (tt, tt)
      place-IsSorted x (y ∷ ys) (b, s) =
          by_test (IsSorted P) (before y x) (y ∷ place before x ys) (x ∷ y ∷ ys)
            (λ e. (place-All (P y) x ys (yes y x e) b, place-IsSorted x ys s))
            (λ e.
              let p = no y x e in
              ((p, All-weaken (P y) (P x) ys (λ z q. trans x y z p q) b), (b, s)))

      pub sorted-IsSorted : (xs : List A) → IsSorted P (sorted before xs)
      sorted-IsSorted [] = tt
      sorted-IsSorted (x ∷ xs) = place-IsSorted x (sorted before xs) (sorted-IsSorted xs)
