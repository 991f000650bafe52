-- ===== src/Prelude/Dict.antt =====
-- A Python dict keyed by texts, in insertion order.
use Prim.Native.String.{String}
use mathlib.Core.Path.{◌≡◌, refl}
use mathlib.Core.Bool.{Bool, true, false}
use mathlib.Core.Option.{Option, none, some}
use mathlib.Core.List.{List, [], ◌∷◌}
use native.Mathlib.Omega.{arith}
use mmp_meridian.Prelude.Tests.{str_eq, str_eq_iff, if◌then◌else◌}
use mmp_meridian.Prelude.Lists.{All, any}

pub str_eq_refl : (s : String) → str_eq s s ≡ true
str_eq_refl s = (str_eq_iff s s).1 refl

abbrev pub Dict {ℓ} : Type ℓ → Type ℓ
Dict V = List (String × V)

module _ {ℓ} {V : Type ℓ} where
  abbrev pub lookup : String → Dict V → Option V
  lookup k [] = none
  lookup k ((j, v) ∷ d) = if str_eq j k then some v else lookup k d

  -- `k in d`
  abbrev pub contains : String → Dict V → Bool
  contains k [] = false
  contains k ((j, v) ∷ d) = if str_eq j k then true else contains k d

  -- `d[k] = v`: an old key keeps its place.
  abbrev pub insert : String → V → Dict V → Dict V
  insert k v [] = (k, v) ∷ []
  insert k v ((j, w) ∷ d) = if str_eq j k then (j, v) ∷ d else (j, w) ∷ insert k v d

  -- `d.pop(k, None)` and `del d[k]`
  abbrev pub erase : String → Dict V → Dict V
  erase k [] = []
  erase k ((j, w) ∷ d) = if str_eq j k then d else (j, w) ∷ erase k d

  abbrev pub values : Dict V → List V
  values [] = []
  values ((j, v) ∷ d) = v ∷ values d

  abbrev pub keys : Dict V → List String
  keys [] = []
  keys ((j, v) ∷ d) = j ∷ keys d

  pub lookup-insert :
      (k j : String) (v : V) (d : Dict V)
      → lookup j (insert k v d) ≡ (if str_eq k j then some v else lookup j d)
  lookup-insert k j v [] = refl
  lookup-insert k j v ((i, w) ∷ d) =
      ground (arith, str_eq_iff k j, str_eq_iff i k, str_eq_iff i j, lookup-insert k j v d)

  pub contains-insert :
      (k j : String) (v : V) (d : Dict V)
      → contains j (insert k v d) ≡ (if str_eq k j then true else contains j d)
  contains-insert k j v [] = refl
  contains-insert k j v ((i, w) ∷ d) =
      ground (arith, str_eq_iff k j, str_eq_iff i k, str_eq_iff i j, contains-insert k j v d)

  -- Under a key that the dict lacks, `insert` adds one entry and keeps the others.
  pub any-insert :
      (test : V → Bool) (k : String) (v : V) (d : Dict V)
      → contains k d ≡ false
      → any test (values (insert k v d)) ≡ (if test v then true else any test (values d))
  any-insert test k v [] h = ground arith
  any-insert test k v ((i, w) ∷ d) h = ground (arith, any-insert test k v d)

  pub All-insert {κ} :
      (P : V → Type κ) (k : String) (v : V) (d : Dict V)
      → P v
      → All P (values d)
      → All P (values (insert k v d))
  All-insert P k v [] p ps = (p, tt)
  All-insert P k v ((i, w) ∷ d) p (q, ps) =
      elim (str_eq i k) as (λ b. All P (values (if b then (i, v) ∷ d else (i, w) ∷ insert k v d))) [
        | true ↦ (p, ps)
        | false ↦ (q, All-insert P k v d p ps)
      ]

  All-erase {κ} :
      (P : V → Type κ) (k : String) (d : Dict V) → All P (values d) → All P (values (erase k d))
  All-erase P k [] ps = tt
  All-erase P k ((i, w) ∷ d) (q, ps) =
      elim (str_eq i k) as (λ b. All P (values (if b then d else (i, w) ∷ erase k d))) [
        | true ↦ ps
        | false ↦ (q, All-erase P k d ps)
      ]
