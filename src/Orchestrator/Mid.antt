-- ===== src/Orchestrator/Mid.antt =====
-- The global mid-price.
use mathlib.Core.Path.{subst}
use mathlib.Core.Option
use mmp_meridian.Prelude.{
  Option, ap, ◌∙◌, ◌≡◌, refl, true, false, none, some, String, List, [], ◌∷◌, map, All, All-weaken,
  str_eq_iff, arith, if◌then◌else◌,
}
use mmp_meridian.Prelude.Dict.{Dict, lookup, contains, values, str_eq_refl}
use mmp_meridian.Float.{Float, ◌≼◌, IsOrdered, IsMonotone, nought, sum_from}
use mmp_meridian.Float.Signs.{div_nonneg}
use mmp_meridian.Orchestrator.{weight_of, active, sum_by, global_mid}
use mmp_meridian.MathUtils.{normalize_weights}

module _ {R : Type 0} ⦃f : Float R⦄ where
  open f use {mul, div, lt, add, eq}

  abbrev total_weight : Dict R → Dict R → R
  total_weight weights valid = sum_from nought (map (λ (name, price). weight_of weights name) valid)

  -- The terms of the weighted sum.
  abbrev weighted : Dict R → R → Dict R → List R
  weighted weights total [] = []
  weighted weights total ((name, price) ∷ valid) =
      mul (div (weight_of weights name) total) price ∷ weighted weights total valid

  -- The same exchanges, none of them at a lower price.
  abbrev IsRise : Dict R → Dict R → Type 0
  IsRise [] [] = Unit {0}
  IsRise ((name, a) ∷ as_before) ((name', b) ∷ later) =
      (name ≡ name') × (a ≼ b) × IsRise as_before later
  IsRise _ _ = ⊥

  values-active :
      (weights valid : Dict R)
      → values (active weights valid) ≡ map (λ (name, price). weight_of weights name) valid
  values-active weights [] = refl
  values-active weights ((name, price) ∷ valid) =
      ap (λ xs. weight_of weights name ∷ xs) (values-active weights valid)

  abbrev share : R → Dict R → Dict R
  share total = map (λ (k, v). (k, div v total))

  -- A name that answered has the share of its weight.
  lookup-share :
      (weights valid : Dict R) (total : R) (k : String)
      → contains k valid ≡ true
      → lookup k (share total (active weights valid)) ≡ some (div (weight_of weights k) total)
  lookup-share weights [] total k h = absurd (ground arith)
  lookup-share weights ((name, price) ∷ valid) total k h =
      ground (arith, str_eq_iff name k, lookup-share weights valid total k)

  terms :
      (weights valid rest : Dict R) (total : R)
      → All (λ b. contains b.0 valid ≡ true) rest
      → map (λ (name, price). mul (weight_of (share total (active weights valid)) name) price) rest
        ≡ weighted weights total rest
  terms weights valid [] total h = refl
  terms weights valid ((name, price) ∷ rest) total (h, hs) =
      rw (lookup-share weights valid total name h, terms weights valid rest total hs) refl

  contains_each : (d : Dict R) → All (λ b. contains b.0 d ≡ true) d
  contains_each [] = tt
  contains_each ((k, v) ∷ d) =
      (rw (str_eq_refl k) refl, All-weaken _ _ d (λ b h. ground arith) (contains_each d))

  abbrev summed : Dict R → Dict R → R → Option R
  summed weights valid total =
      if eq total nought then none else some (sum_from nought (weighted weights total valid))

  abbrev IsSum : Dict R → Dict R → R → Type 0
  IsSum weights valid total =
      Option.map (λ n. sum_by n valid)
        (if eq total nought then none else some (share total (active weights valid)))
      ≡ summed weights valid total

  sums : (weights valid : Dict R) (total : R) → IsSum weights valid total
  sums weights valid total =
      let e = terms weights valid valid total (contains_each valid) in
      elim (eq total nought)
        as (λ b.
          Option.map (λ n. sum_by n valid)
            (if b then none else some (share total (active weights valid)))
          ≡ (if b then none else some (sum_from nought (weighted weights total valid)))) [
            | true ↦ refl
            | false ↦ ap (λ xs. some (sum_from nought xs)) e
          ]

  -- The global mid-price as one sum over the exchanges that answered.
  global_mid_lem :
      (weights valid : Dict R)
      → global_mid weights valid ≡ summed weights valid (total_weight weights valid)
  unfolding global_mid normalize_weights
  global_mid_lem weights valid =
      sums weights valid (sum_from nought (values (active weights valid)))
      ∙ ap (λ xs. summed weights valid (sum_from nought xs)) (values-active weights valid)

  module _ (o : IsOrdered R) (m : IsMonotone R) where
    sum_mono :
        (weights : Dict R) (total start start' : R) (before later : Dict R)
        → lt nought total ≡ true
        → ((name : String) → nought ≼ weight_of weights name)
        → start ≼ start'
        → IsRise before later
        → sum_from start (weighted weights total before)
          ≼ sum_from start' (weighted weights total later)
    sum_mono weights total start start' [] [] p w h r = h
    sum_mono weights total start start' ((name, a) ∷ before) ((name', b) ∷ later) p w h (e, ab, r) =
        let share = div (weight_of weights name) total in
        let share' = div (weight_of weights name') total in
        let nonneg = div_nonneg o m (weight_of weights name) total (w name) p in
        let terms : mul share a ≼ mul share b =
          ground (arith, m.mul_comm share a, m.mul_comm share b, m.mul_mono a b share nonneg ab) in
        let terms' : mul share a ≼ mul share' b =
          subst (λ n. mul share a ≼ mul (div (weight_of weights n) total) b) e terms in
        sum_mono weights total (add start (mul share a)) (add start' (mul share' b)) before later p
          w (m.add_mono start start' (mul share a) (mul share' b) h terms') r
    sum_mono weights total start start' [] (_ ∷ _) p w h r = absurd r
    sum_mono weights total start start' (_ ∷ _) [] p w h r = absurd r

    total_same :
        (weights : Dict R) (start : R) (before later : Dict R)
        → IsRise before later
        → sum_from start (map (λ (name, price). weight_of weights name) before)
          ≡ sum_from start (map (λ (name, price). weight_of weights name) later)
    total_same weights start [] [] r = refl
    total_same weights start ((name, a) ∷ before) ((name', b) ∷ later) (e, ab, r) =
        ap
          (λ n.
            sum_from (add start (weight_of weights n))
              (map (λ (name, price). weight_of weights name) before))
          e
        ∙ total_same weights (add start (weight_of weights name')) before later r
    total_same weights start [] (_ ∷ _) r = absurd r
    total_same weights start (_ ∷ _) [] r = absurd r

    -- On an ordered, monotone arithmetic, with weights that are not negative and a positive total: if the
    -- same exchanges answer, none of them with a lower price, the global mid-price does not fall.
    global_mid_mono :
        (weights before later : Dict R) (p q : R)
        → ((name : String) → nought ≼ weight_of weights name)
        → lt nought (total_weight weights before) ≡ true
        → IsRise before later
        → global_mid weights before ≡ some p
        → global_mid weights later ≡ some q
        → p ≼ q
    global_mid_mono weights before later p q w pos_total r ep eq' =
        let total = total_weight weights before in
        let total' = total_weight weights later in
        let same : total ≡ total' = total_same weights nought before later r in
        let rise =
          sum_mono weights total nought nought before later pos_total w (o.le_refl nought) r in
        let rise' : sum_from nought (weighted weights total before)
            ≼ sum_from nought (weighted weights total' later) =
          subst
            (λ z.
              sum_from nought (weighted weights total before)
              ≼ sum_from nought (weighted weights z later))
            same rise in
        ground (arith, ep, eq', rise', global_mid_lem weights before, global_mid_lem weights later)
