-- ===== src/Regime/Training.antt =====
-- The training of quant/regime_detector.py: `_forward`, `_backward` and `baum_welch`. An array is a
-- function of its indices, with `n` states and `m` observations; `total` is numpy's sum of an array,
-- whose order of additions is numpy's own, and `log` is numpy's.
use mmp_meridian.Prelude.{
  ℕ, zero, suc, ◌&&◌, Bool, true, false, Option, none, some, List, [], ◌∷◌, ◌++◌, map, ltb, ◌==◌,
  any, not, if◌then◌else◌,
}
use mmp_meridian.Float.{Float, nought, unity, max, abs}
use mmp_meridian.Depth.Engine.{range}

abbrev Vector : Type 0 → Type 0
Vector R = ℕ → R

abbrev Matrix : Type 0 → Type 0
Matrix R = ℕ → ℕ → R

-- `pi`, `A` and `B`.
pub record Arrays (R : Type 0) : Type 0 where
  pub pi : Vector R
  pub a : Matrix R
  pub b : Matrix R

-- What the forward pass finds at one time.
pub record Moment (R : Type 0) : Type 0 where
  pub obs : ℕ
  pub alpha : Vector R
  pub scale : R

-- The accumulators, with the log-likelihood.
pub record Counts (R : Type 0) : Type 0 where
  pub pi_acc : Vector R
  pub a_acc : Matrix R
  pub b_acc : Matrix R
  pub total_ll : R

-- The detector: its model and its belief.
pub record Trainee (R : Type 0) : Type 0 where
  pub model : Arrays R
  pub belief : Vector R

module _ {R : Type 0} ⦃f : Float R⦄ (total : List R → R) (log : R → R) (n m : ℕ) where
  open f use {add, sub, mul, div, lt, eq, decimal}

  abbrev tiny : R
  tiny = decimal 1 300

  abbrev sum_over : ℕ → Vector R → R
  sum_over k v = total (map v (range k))

  abbrev unless_zero : R → R
  unless_zero s = if eq s nought then tiny else s

  abbrev moment_of : ℕ → Vector R → Moment R
  moment_of o raw =
      let s = unless_zero (sum_over n raw) in
      record { obs = o; alpha = λ i. div (raw i) s; scale = s }

  unfoldable forward_from : Arrays R → Vector R → List ℕ → List (Moment R)
  forward_from k prev [] = []
  forward_from k prev (o ∷ os) =
      let x = moment_of o (λ j. mul (sum_over n (λ i. mul (prev i) (k.a i j))) (k.b j o)) in
      x ∷ forward_from k x.alpha os

  abbrev first_moment : Arrays R → ℕ → Moment R
  first_moment k o = moment_of o (λ i. mul (k.pi i) (k.b i o))

  abbrev log_likelihood : List (Moment R) → R
  log_likelihood xs = total (map (λ x. log (add x.scale tiny)) xs)

  -- The vector of the first time, and those of the times of the moments.
  unfoldable backward : Arrays R → List (Moment R) → Vector R × List (Vector R)
  backward k [] = (λ i. unity, [])
  backward k (x ∷ xs) =
      let (later, rest) = backward k xs in
      (
        λ i. div (sum_over n (λ j. mul (k.a i j) (mul (k.b j x.obs) (later j)))) x.scale,
        later ∷ rest,
      )

  abbrev gamma : Vector R → Vector R → Vector R
  gamma alpha beta =
      let raw : Vector R = λ i. mul (alpha i) (beta i) in
      let s = unless_zero (sum_over n raw) in λ i. div (raw i) s

  abbrev cells : Matrix R → List ℕ → List R
  cells g [] = []
  cells g (i ∷ is) = map (g i) (range n) ++ cells g is

  -- `xi_t`, from the moment and the backward vector of the next time.
  abbrev xi : Arrays R → Vector R → Moment R → Vector R → Matrix R
  xi k alpha x beta =
      let numer : Matrix R = λ i j. mul (mul (alpha i) (mul (beta j) (k.b j x.obs))) (k.a i j) in
      let denom = unless_zero (total (cells numer (range n))) in λ i j. div (numer i j) denom

  -- The loop over the transitions, from a time with the forward vector `alpha`.
  unfoldable add_transitions :
      Arrays R → Vector R → List (Moment R) → List (Vector R) → Matrix R → Matrix R
  add_transitions k alpha [] betas acc = acc
  add_transitions k alpha (x ∷ xs) [] acc = acc
  add_transitions k alpha (x ∷ xs) (beta ∷ betas) acc =
      add_transitions k x.alpha xs betas (λ i j. add (acc i j) (xi k alpha x beta i j))

  -- The loop over the emissions.
  unfoldable add_emissions : List (Moment R) → List (Vector R) → Matrix R → Matrix R
  add_emissions [] betas acc = acc
  add_emissions (x ∷ xs) [] acc = acc
  add_emissions (x ∷ xs) (beta ∷ betas) acc =
      add_emissions xs betas
        (λ i o. if o == x.obs then add (acc i o) (gamma x.alpha beta i) else acc i o)

  -- What a sequence of the observations `o` and `os` adds.
  unfoldable count_sequence : Arrays R → ℕ → List ℕ → Counts R → Counts R
  unfolding forward_from backward add_transitions add_emissions
  count_sequence k o os c =
      let x = first_moment k o in
      let xs = forward_from k x.alpha os in
      let (beta, betas) = backward k xs in
      record {
        pi_acc = λ i. add (c.pi_acc i) (gamma x.alpha beta i);
        a_acc = add_transitions k x.alpha xs betas c.a_acc;
        b_acc = add_emissions (x ∷ xs) (beta ∷ betas) c.b_acc;
        total_ll = add c.total_ll (log_likelihood (x ∷ xs));
      }

  -- An observation that is not a column of `B` raises an IndexError.
  abbrev in_range : List ℕ → Bool
  in_range obs = not (any (λ o. not (ltb o m)) obs)

  -- The loop over the sequences, which passes over those of fewer than two observations.
  unfoldable count_all : Arrays R → List (List ℕ) → Counts R → Option (Counts R)
  unfolding count_sequence
  count_all k [] c = some c
  count_all k ([] ∷ sequences) c = count_all k sequences c
  count_all k ((o ∷ []) ∷ sequences) c = count_all k sequences c
  count_all k ((o ∷ o' ∷ os) ∷ sequences) c =
      let rest = count_all k sequences (count_sequence k o (o' ∷ os) c) in
      if in_range (o ∷ o' ∷ os) then rest else none

  -- A row over the sum of it, and then with no entry below 1e-10.
  abbrev rate : ℕ → Vector R → Vector R
  rate k row = λ i. div (row i) (add (sum_over k row) tiny)

  abbrev raised_row : Vector R → Vector R
  raised_row row = λ i. max (row i) (decimal 1 10)

  abbrev floored : ℕ → Vector R → Vector R
  floored k row = λ i. div (raised_row row i) (sum_over k (raised_row row))

  unfoldable reestimate : Counts R → Arrays R
  reestimate c = record {
    pi = floored n (rate n c.pi_acc);
    a = λ i. floored n (rate n (c.a_acc i));
    b = λ i. floored m (rate m (c.b_acc i));
  }

  -- `prev_ll` is `none` for minus infinity.
  abbrev converged : R → ℕ → Option R → R → Bool
  converged tol iteration none ll = false
  converged tol iteration (some prev_ll) ll = lt (abs (sub ll prev_ll)) tol && ltb 0 iteration

  abbrev zeros : Counts R
  zeros = record {
    pi_acc = λ i. nought;
    a_acc = λ i j. nought;
    b_acc = λ i o. nought;
    total_ll = nought;
  }

  -- The loop from an iteration on, with so many left.
  unfoldable iterate : List (List ℕ) → R → ℕ → ℕ → Option R → Arrays R → Option (Arrays R)
  unfolding count_all reestimate
  iterate sequences tol iteration zero prev_ll k = some k
  iterate sequences tol iteration (suc left) prev_ll k = elim (count_all k sequences zeros) [
    | none ↦ none
    | some c ↦
        let k' = reestimate c in
        let next = iterate sequences tol (suc iteration) left (some c.total_ll) k' in
        if converged tol iteration prev_ll c.total_ll then some k' else next
  ]

  unfoldable baum_welch : List (List ℕ) → Arrays R → ℕ → R → Option (Arrays R)
  unfolding iterate
  baum_welch sequences k n_iter tol = iterate sequences tol 0 n_iter none k

  -- An exception leaves the detector as it is.
  abbrev replaced : Trainee R → Option (Arrays R) → Bool × Trainee R
  replaced t none = (false, t)
  replaced t (some k) = (true, record { model = k; belief = k.pi })

  -- With whether the call returns.
  unfoldable train : List (List ℕ) → ℕ → R → Trainee R → Bool × Trainee R
  unfolding baum_welch
  train sequences n_iter tol t = replaced t (baum_welch sequences t.model n_iter tol)
