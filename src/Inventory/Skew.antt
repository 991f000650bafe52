-- ===== src/Inventory/Skew.antt =====
-- What the skew of the inventory tracker promises the depth engine.
use mathlib.Core.Path.{subst}
use mmp_meridian.Prelude.{
  ◌≡◌, sym, ap, ◌∙◌, refl, false, none, some, Option, Bool-cases, inl, inr, arith,
}
use mmp_meridian.Float.{Float, ◌≼◌, IsOrdered, IsMonotone, nought, unity}
use mmp_meridian.Float.Order.{lt_of_not-le}
use mmp_meridian.MathUtils.{clip, le-clip, clip-le, clip_mono, clip_inside}
use mmp_meridian.Inventory.{Tracker, drift, skew_from, skew_factor}

module _ {R : Type 0} ⦃f : Float R⦄ (o : IsOrdered R) where
  open f use {sub, mul, div, le, decimal}

  bounds :
      (current : R) (initial : Option R)
      → (decimal 5 1 ≼ skew_from current initial) × (skew_from current initial ≼ decimal 2 0)
  unfolding skew_from
  bounds current none = (o.decimal_le 5 1 1 0 refl, o.decimal_le 1 0 2 0 refl)
  bounds current (some initial) =
      let raw = sub unity (mul (drift current initial) (decimal 2 0)) in
      ground (
        arith,
        o.decimal_le 5 1 1 0 refl,
        o.decimal_le 1 0 2 0 refl,
        le-clip o raw (decimal 5 1) (decimal 2 0),
        clip-le o raw (decimal 5 1) (decimal 2 0) (o.decimal_le 5 1 2 0 refl),
      )

  -- On ordered decimals the skew factor lies between 0.5 and 2.0, whatever the balances are.
  skew_factor_bounds :
      (t : Tracker R) → (decimal 5 1 ≼ skew_factor t) × (skew_factor t ≼ decimal 2 0)
  unfolding skew_factor
  skew_factor_bounds t = bounds t.current_token t.initial_token

  module _ (m : IsMonotone R) where
    raw_antitone :
        (current more initial : R)
        → le initial nought ≡ false
        → current ≼ more
        → sub unity (mul (drift more initial) (decimal 2 0))
          ≼ sub unity (mul (drift current initial) (decimal 2 0))
    raw_antitone current more initial p h = m.sub_mono _ _ _ _ (o.le_refl unity) (
        m.mul_mono _ _ (decimal 2 0) (o.decimal_le 0 0 2 0 refl) (
          m.div_mono _ _ initial (lt_of_not-le o initial nought p)
            (m.sub_mono _ _ _ _ h (o.le_refl initial))))

    antitone :
        (current more : R) (initial : Option R)
        → current ≼ more
        → skew_from more initial ≼ skew_from current initial
    unfolding skew_from
    antitone current more none h = o.le_refl unity
    antitone current more (some initial) h = elim (Bool-cases (le initial nought)) [
      | inl e ↦ rw e (o.le_refl unity)
      | inr e ↦ rw e (clip_mono o _ _ _ _ (raw_antitone current more initial e h))
    ]

    raw_start :
        (initial : R)
        → le initial nought ≡ false
        → sub unity (mul (drift initial initial) (decimal 2 0)) ≡ unity
    raw_start initial e =
        ap (λ x. sub unity (mul (div x initial) (decimal 2 0))) (m.sub_self initial)
        ∙ ap (λ x. sub unity (mul x (decimal 2 0))) (m.zero-div initial (lt_of_not-le o _ _ e))
        ∙ ap (sub unity) (m.zero-mul (decimal 2 0))
        ∙ m.sub-zero unity

    at_start : (initial : R) → skew_from initial (some initial) ≡ unity
    unfolding skew_from
    at_start initial = elim (Bool-cases (le initial nought)) [
      | inl e ↦ rw e
      | inr e ↦ rw e (
          ap (λ x. clip x (decimal 5 1) (decimal 2 0)) (raw_start initial e)
          ∙ clip_inside o _ _ _ (o.decimal_le 5 1 1 0 refl) (o.decimal_le 1 0 2 0 refl))
    ]

    -- On an ordered, monotone arithmetic, of two balances measured against the same start, the
    -- one with more tokens has no larger skew factor.
    skew_factor_antitone :
        (t u : Tracker R)
        → t.initial_token ≡ u.initial_token
        → t.current_token ≼ u.current_token
        → skew_factor u ≼ skew_factor t
    unfolding skew_factor
    skew_factor_antitone t u e h =
        rw (← e) (antitone t.current_token u.current_token t.initial_token h)

    -- On an ordered, monotone arithmetic, with no fewer tokens than at the start the skew factor
    -- is at most 1, with no more it is at least 1.
    skew_factor_direction :
        (t : Tracker R) (initial : R)
        → t.initial_token ≡ some initial
        → (initial ≼ t.current_token → skew_factor t ≼ unity)
          × (t.current_token ≼ initial → unity ≼ skew_factor t)
    unfolding skew_factor
    skew_factor_direction t initial e =
        let now = t.current_token in
        let same = at_start initial in
        (
          λ h.
              subst (λ x. skew_from now x ≼ unity) (sym e)
                (subst (λ y. skew_from now (some initial) ≼ y) same
                  (antitone initial now (some initial) h)),
          λ h.
              subst (λ x. unity ≼ skew_from now x) (sym e)
                (subst (λ y. y ≼ skew_from now (some initial)) same
                  (antitone now initial (some initial) h)),
        )
