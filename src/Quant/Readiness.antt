-- ===== src/Quant/Readiness.antt =====
-- When the Gaussian detector answers, and what with.
use mmp_meridian.Prelude.{
  ℕ, ◌+◌, ◌≤◌, ◌<◌, ◌≡◌, ◌≢◌, refl, Bool, true, false, ◌&&◌, ◌||◌, none, some, List, [], ◌∷◌,
  length, ltb, leb, if◌then◌else◌, arith, Bool-cases, Option-cases, inl, inr,
}
use mmp_meridian.Prelude.Deque.{append, last_or, length-append_deque}
use mmp_meridian.Float.{Float, ◌≼◌, IsOrdered, nought, unity}
use mmp_meridian.Config.{HmmConfig}
use mmp_meridian.Quant.Aggressiveness.{HmmRegime, normal, recovery, is_crash}
use mmp_meridian.Quant.Detector.{
  Observation, Library, HmmRegimeDetector, fresh, fallback_decode, viterbi, decode_regime, refit,
  is_ready, observe, classify, update, run, is_crash_or_recovery,
}

module _ {R Mo : Type 0} ⦃f : Float R⦄ (lib : Library R Mo) (cfg : HmmConfig R) where
  update-observations :
      (obs : Observation R) (d : HmmRegimeDetector R Mo)
      → (update lib cfg obs d).observations ≡ append cfg.hmm_lookback d.observations obs
  unfolding update classify refit
  update-observations obs d = ground arith

  -- The length of a buffer that `n` observations reach.
  abbrev pub filled : ℕ → ℕ
  filled n = if ltb n cfg.hmm_lookback then n else cfg.hmm_lookback

  run-observations :
      (os : List (Observation R)) (d : HmmRegimeDetector R Mo)
      → length d.observations ≤ cfg.hmm_lookback
      → length (run lib cfg os d).observations ≡ filled (length os + length d.observations)
  unfolding run
  run-observations [] d h = ground arith
  run-observations (obs ∷ rest) d h = ground (
    arith,
    h,
    update-observations obs d,
    length-append_deque cfg.hmm_lookback d.observations obs h,
    run-observations rest (update lib cfg obs d),
  )

  -- After any observations from the start, the buffer holds as many as were made, or `hmm_lookback` of
  -- them, and the detector is ready exactly if at least `hmm_min_observations` were made and
  -- `hmm_lookback` is no smaller than `hmm_min_observations`.
  run-fresh :
      (os : List (Observation R))
      → let d = run lib cfg os (fresh lib) in
        (length d.observations ≡ filled (length os))
        × (is_ready lib cfg d ≡ (
            leb cfg.hmm_min_observations (length os)
            && leb cfg.hmm_min_observations cfg.hmm_lookback))
  run-fresh os = ground (arith, run-observations os (fresh lib) (omega arith))

  -- Untouched: what `update` leaves while the detector is not ready.
  abbrev IsIdle : HmmRegimeDetector R Mo → Type 0
  IsIdle d =
      (length d.observations ≤ cfg.hmm_lookback)
      × (d.current_regime ≡ normal)
      × (d.confidence ≡ nought)

  update-IsIdle :
      (obs : Observation R) (d : HmmRegimeDetector R Mo)
      → cfg.hmm_lookback < cfg.hmm_min_observations
      → IsIdle d
      → IsIdle (update lib cfg obs d)
  unfolding update
  update-IsIdle obs d h (k, e, c) =
      ground (arith, h, k, e, c, length-append_deque cfg.hmm_lookback d.observations obs k)

  run-IsIdle :
      (os : List (Observation R)) (d : HmmRegimeDetector R Mo)
      → cfg.hmm_lookback < cfg.hmm_min_observations
      → IsIdle d
      → IsIdle (run lib cfg os d)
  unfolding run
  run-IsIdle [] d h i = i
  run-IsIdle (obs ∷ rest) d h i = run-IsIdle rest (update lib cfg obs d) h (update-IsIdle obs d h i)

  -- If `hmm_lookback` is smaller than `hmm_min_observations`, which the schema accepts, then the
  -- detector reports NORMAL with a confidence of 0 for ever.
  pub run_silent :
      (os : List (Observation R))
      → cfg.hmm_lookback < cfg.hmm_min_observations
      → let d = run lib cfg os (fresh lib) in (d.current_regime ≡ normal) × (d.confidence ≡ nought)
  run_silent os h = let (k, e, c) = run-IsIdle os (fresh lib) h (omega arith, refl, refl) in (e, c)

  -- What the library answers with as a posterior is a probability.
  abbrev pub HasProbabilities : Type 0
  HasProbabilities =
      (model : Mo) (os : List (Observation R)) (n : ℕ) (c : R)
      → lib.posterior model os n ≡ some c
      → (nought ≼ c) × (c ≼ unity)

  abbrev pub InUnit : R → Type 0
  InUnit c = (nought ≼ c) × (c ≼ unity)

  module _ (o : IsOrdered R) where
    fallback-InUnit :
        (current : HmmRegime) (latest : Observation R) → InUnit (fallback_decode current latest).1
    unfolding fallback_decode
    fallback-InUnit current latest = ground (
      arith,
      o.decimal_le 0 0 8 1 refl,
      o.decimal_le 8 1 1 0 refl,
      o.decimal_le 0 0 7 1 refl,
      o.decimal_le 7 1 1 0 refl,
      o.decimal_le 0 0 6 1 refl,
      o.decimal_le 6 1 1 0 refl,
    )

    viterbi-InUnit :
        HasProbabilities
        → (model : Mo) (os : List (Observation R)) (r : HmmRegime) (c : R)
        → viterbi lib model os ≡ some (r, c)
        → InUnit c
    unfolding viterbi
    viterbi-InUnit h model os r c e = elim (Option-cases (lib.decode model os)) [
      | inl e1 ↦ absurd (ground (arith, e, e1))
      | inr (n, e1) ↦ elim (Option-cases (lib.posterior model os n)) [
        | inl e2 ↦ absurd (ground (arith, e, e1, e2))
        | inr (c', e2) ↦ ground (arith, e, e1, e2, h model os n c' e2)
      ]
    ]

    decode_regime-InUnit :
        HasProbabilities
        → (obs : Observation R) (d : HmmRegimeDetector R Mo) → InUnit (decode_regime lib obs d).1
    unfolding decode_regime
    decode_regime-InUnit h obs d = elim (Option-cases d.model) [
      | inl e ↦ ground (arith, e, fallback-InUnit d.current_regime (last_or obs d.observations))
      | inr (model, e) ↦ elim (Option-cases (viterbi lib model d.observations)) [
        | inl e1 ↦
            ground (arith, e, e1, fallback-InUnit d.current_regime (last_or obs d.observations))
        | inr ((r, c), e1) ↦ ground (arith, e, e1, viterbi-InUnit h model d.observations r c e1)
      ]
    ]

    pub update-InUnit :
        HasProbabilities
        → (obs : Observation R) (d : HmmRegimeDetector R Mo) → InUnit d.confidence
        → InUnit (update lib cfg obs d).confidence
    unfolding update classify refit
    update-InUnit h obs d i = ground (arith, i, decode_regime-InUnit h obs (observe lib cfg obs d))

    -- On ordered numbers, if the posteriors of the library are probabilities, then the confidence of the
    -- detector lies between 0 and 1 after any observations, also where the library raises.
    run-InUnit :
        HasProbabilities
        → (os : List (Observation R)) (d : HmmRegimeDetector R Mo) → InUnit d.confidence
        → InUnit (run lib cfg os d).confidence
    unfolding run
    run-InUnit h [] d i = i
    run-InUnit h (obs ∷ rest) d i =
        run-InUnit h rest (update lib cfg obs d) (update-InUnit h obs d i)

  -- Some state of a run, the last one apart, is a crash.
  abbrev crashes : List (Observation R) → HmmRegimeDetector R Mo → Bool
  crashes [] d = false
  crashes (obs ∷ rest) d = is_crash d.current_regime || crashes rest (update lib cfg obs d)

  update-recovery :
      (obs : Observation R) (d : HmmRegimeDetector R Mo)
      → d.model ≡ none
      → let d' = update lib cfg obs d in
        (d'.model ≡ none)
        × (d'.current_regime ≡ recovery → is_crash_or_recovery d.current_regime ≡ true)
  unfolding update classify decode_regime refit fallback_decode
  update-recovery obs d h = ground (arith, h)

  -- Without hmmlearn, where the rules decide: whenever a run that did not start in RECOVERY is in
  -- it, the detector has reported HIGH_VOL_CRASH before.
  recovery-crashes :
      (os : List (Observation R)) (d : HmmRegimeDetector R Mo)
      → d.model ≡ none
      → d.current_regime ≢ recovery
      → (run lib cfg os d).current_regime ≡ recovery
      → crashes os d ≡ true
  unfolding run
  recovery-crashes [] d h k e = absurd (k e)
  recovery-crashes (obs ∷ rest) d h k e =
      let d' = update lib cfg obs d in
      let (h', before) = update-recovery obs d h in
      elim (Bool-cases (is_crash d.current_regime)) [
        | inl c ↦ ground (arith, c)
        | inr c ↦
            let k' : d'.current_regime ≢ recovery =
              λ e'. absurd (ground (arith, before e', c, k)) in
            ground (arith, c, recovery-crashes rest d' h' k' e)
      ]
