-- ===== src/Connectors/Backoff.antt =====
-- When a watch loop gives up.
use mmp_meridian.Prelude.{
  ℕ, suc, zero, ◌+◌, ◌-◌, ◌^◌, ◌≤◌, ◌<◌, ◌≡◌, ap, true, false, List, [], ◌∷◌, leb, Bool-cases, inl,
  inr, arith,
}
use native.Mathlib.Nat.{two-pow-succ}
use mmp_meridian.Connectors.Retries.{total}
use mmp_meridian.Connectors.Streams.{Update, network_error, Watch, max_retries, turn, step, run}

module _ {A : Type 0} where
  abbrev pub failures : ℕ → List (Update A)
  failures zero = []
  failures (suc n) = network_error ∷ failures n

  abbrev waited : Watch A → Watch A
  waited w = record w { retries = w.retries + 1; slept = 2 ^ w.retries ∷ w.slept }

  step_error :
      (w : Watch A)
      → w.running ≡ true
      → w.retries + 1 ≤ max_retries
      → step network_error w ≡ waited w
  unfolding step turn
  step_error w e h =
      rw e
        (ground (arith, h, ap (λ n. 2 ^ n) {x = w.retries + 1 - 1} {y = w.retries} (omega arith)))

  -- A loop that has seen `w.retries` network errors in a row.
  outlasts :
      (n : ℕ) (w : Watch A)
      → w.running ≡ true
      → w.retries + n ≤ max_retries
      → let w' = run (failures n) w in
        (w'.running ≡ true) × (total w'.slept + 2 ^ w.retries ≡ total w.slept + 2 ^ (w.retries + n))
  unfolding run
  outlasts zero w e h = (e, ap (λ n. total w.slept + 2 ^ n) (omega arith))
  outlasts (suc n) w e h =
      let (alive, sum) = outlasts n (waited w) e (omega (arith, h)) in
      rw (run, step_error w e (omega (arith, h)))
        (
          alive,
          omega (
            arith,
            sum,
            two-pow-succ w.retries,
            ap (λ n. 2 ^ n) {x = w.retries + 1 + n} {y = w.retries + suc n} (omega arith),
            ap (λ n. 2 ^ n) {x = w.retries + 1} {y = suc w.retries} (omega arith),
          ),
        )

  step_ended : (w : Watch A) → w.running ≡ false → step network_error w ≡ w
  unfolding step turn
  step_ended w e = ground arith

  ended : (n : ℕ) (w : Watch A) → w.running ≡ false → (run (failures n) w).running ≡ false
  unfolding run step
  ended zero w e = e
  ended (suc n) w e = rw (run, step_ended w e) (ended n w e)

  stops :
      (w : Watch A)
      → w.running ≡ true
      → w.retries ≤ max_retries
      → max_retries < w.retries + 1
      → (step network_error w).running ≡ false
  unfolding step turn
  stops w e h k = rw e (ground (arith, h, k))

  gives_up :
      (n : ℕ) (w : Watch A)
      → w.running ≡ true
      → w.retries ≤ max_retries
      → max_retries < w.retries + n
      → (run (failures n) w).running ≡ false
  unfolding run
  gives_up zero w e h k = absurd (omega (arith, h, k))
  gives_up (suc n) w e h k = elim (Bool-cases (leb (w.retries + 1) max_retries)) [
    | inl t ↦
        rw (run, step_error w e (ground arith))
          (gives_up n (waited w) e (ground arith) (omega (arith, k)))
    | inr t ↦ ended n (step network_error w) (stops w e h (ground arith))
  ]

  -- A running loop without a network error since its last item outlasts five of them in a row, for
  -- which it waits 1, 2, 4, 8 and 16 seconds, and ends with the sixth.
  pub run-failures :
      (n : ℕ) (w : Watch A)
      → w.running ≡ true
      → w.retries ≡ 0
      → let w' = run (failures n) w in
        (n ≤ max_retries → (w'.running ≡ true) × (total w'.slept + 1 ≡ total w.slept + 2 ^ n))
        × (max_retries < n → w'.running ≡ false)
  run-failures n w e z = (
    λ h.
        let (alive, sum) = outlasts n w e (omega (arith, h, z)) in
        (
          alive,
          omega (
            arith,
            sum,
            ap (λ n. 2 ^ n) {x = w.retries + n} {y = n} (omega (arith, z)),
            ap (λ n. 2 ^ n) z,
          ),
        ),
    λ h. gives_up n w e (omega (arith, z)) (omega (arith, h, z)),
  )
