-- ===== src/Orchestrator/Distribution.antt =====
-- What reaches the bots.
use mmp_meridian.Prelude.{
  ◌≡◌, ◌≤◌, ◌<◌, refl, Option, none, some, String, List, [], ◌∷◌, ◌++◌, All, ap, ◌∙◌, by_test,
  arith, length, ltb, Bool-cases, inl, inr, true, false,
}
use mathlib.Core.Path.{subst}
use mmp_meridian.Prelude.Dict.{Dict, keys}
use mmp_meridian.Float.{Float, nought}
use mmp_meridian.Quant.Volatility.{zhang_zhang_vol}
use mmp_meridian.Regime.Observation.{Model}
use mmp_meridian.Regime.Master.{Queue, GlobalState, RegimeMaster, put_nowait, push_state}
use mmp_meridian.Regime.Reconcile.{Fits, put_nowait-Fits}
use mmp_meridian.Orchestrator.{
  Outcome, no_valid_tickers, invalid_global_mid, distributed, Orchestrator, Models, Answers,
  valid_prices, push_all, as_dict, global_mid, feed_engine, run_detector, global_state, publish,
  distribute, tick_prices,
}

push_all-Fits :
    {S : Type 0} (s : S) (queues : Dict (Queue S))
    → All (λ (name, q). Fits q) queues
    → All (λ (name, q). Fits q) (push_all s queues)
unfolding push_all
push_all-Fits s [] h = tt
push_all-Fits s ((name, q) ∷ queues) (h, hs) = (put_nowait-Fits s q h, push_all-Fits s queues hs)

keys-push_all :
    {S : Type 0} (s : S) (queues : Dict (Queue S)) → keys (push_all s queues) ≡ keys queues
unfolding push_all
keys-push_all s [] = refl
keys-push_all s ((name, q) ∷ queues) = ap (λ ks. name ∷ ks) (keys-push_all s queues)

-- A state comes last in a queue that has room, and a full queue stays as it is.
abbrev Appended : {S : Type 0} → S → Queue S → Queue S → Type 0
Appended s q q' =
    (length q.items < q.maxsize → q' ≡ record { maxsize = q.maxsize; items = q.items ++ s ∷ [] })
    × (q.maxsize ≤ length q.items → q' ≡ q)

put_nowait-Appended : {S : Type 0} (s : S) (q : Queue S) → Appended s q (put_nowait s q)
unfolding put_nowait
put_nowait-Appended s q = elim (Bool-cases (ltb (length q.items) q.maxsize)) [
  | inl e ↦ rw e (λ h. refl, λ h. absurd (ground (arith, e, h)))
  | inr e ↦ rw e (λ h. absurd (ground (arith, e, h)), λ h. refl)
]

-- The same names with the state appended to every queue.
abbrev Reached : {S : Type 0} → S → Dict (Queue S) → Dict (Queue S) → Type 0
Reached s [] queues' = queues' ≡ []
Reached s (_ ∷ _) [] = false ≡ true
Reached s ((name, q) ∷ queues) ((name', q') ∷ queues') =
    (name' ≡ name) × Appended s q q' × Reached s queues queues'

push_all-Reached :
    {S : Type 0} (s : S) (queues : Dict (Queue S)) → Reached s queues (push_all s queues)
unfolding push_all
push_all-Reached s [] = refl
push_all-Reached s ((name, q) ∷ queues) = (refl, put_nowait-Appended s q, push_all-Reached s queues)

module _ {R Mo V : Type 0} ⦃f : Float R⦄ (models : Models R Mo) (master : Model R V) where
  abbrev IsKept : Orchestrator R Mo V → Outcome × Orchestrator R Mo V → Type 0
  IsKept t (outcome, t') =
      All (λ (name, q). Fits q) t'.bot_queues × (keys t'.bot_queues ≡ keys t.bot_queues)

  feed_engine-bot_queues :
      (mid : R) (a : Answers R) (t : Orchestrator R Mo V)
      → (feed_engine models master mid a t).bot_queues ≡ t.bot_queues
  unfolding feed_engine
  feed_engine-bot_queues mid a t = ground arith

  run_detector-bot_queues :
      (t : Orchestrator R Mo V) → (run_detector models master t).1.bot_queues ≡ t.bot_queues
  unfolding run_detector
  run_detector-bot_queues t = ground arith

  global_state-bot_queues :
      (mid : R) (names : List String) (a : Answers R) (t : Orchestrator R Mo V)
      → (global_state models master mid names a t).1.bot_queues ≡ t.bot_queues
  unfolding global_state
  global_state-bot_queues mid names a t =
      let fed = feed_engine models master mid a t in
      let (answer, e) = zhang_zhang_vol models.numerics models.volatility fed.vol_engine in
      run_detector-bot_queues (record fed { vol_engine = e }) ∙ feed_engine-bot_queues mid a t

  feed_engine-regime_master :
      (mid : R) (a : Answers R) (t : Orchestrator R Mo V)
      → (feed_engine models master mid a t).regime_master ≡ t.regime_master
  unfolding feed_engine
  feed_engine-regime_master mid a t = ground arith

  run_detector-regime_master :
      (t : Orchestrator R Mo V) → (run_detector models master t).1.regime_master ≡ t.regime_master
  unfolding run_detector
  run_detector-regime_master t = ground arith

  global_state-regime_master :
      (mid : R) (names : List String) (a : Answers R) (t : Orchestrator R Mo V)
      → (global_state models master mid names a t).1.regime_master ≡ t.regime_master
  unfolding global_state
  global_state-regime_master mid names a t =
      let fed = feed_engine models master mid a t in
      let (answer, e) = zhang_zhang_vol models.numerics models.volatility fed.vol_engine in
      run_detector-regime_master (record fed { vol_engine = e }) ∙ feed_engine-regime_master mid a t

  -- The state is kept, and given to the regime master and to every bot.
  pub record IsPublished (s : GlobalState R) (t t' : Orchestrator R Mo V) : Type 0 where
    pub kept : t'.state ≡ some s
    pub master_told : Appended s t.regime_master.pending_queue t'.regime_master.pending_queue
    pub bots_told : Reached s t.bot_queues t'.bot_queues

  pub publish-IsPublished :
      (mid : R) (names : List String) (a : Answers R) (t : Orchestrator R Mo V)
      → let told = global_state models master mid names a t in
        IsPublished told.0 t (publish models master told)
  unfolding push_state
  publish-IsPublished mid names a t =
      let (s, t') = global_state models master mid names a t in
      record {
        kept = refl;
        master_told =
            subst
              (λ (m : RegimeMaster R V).
                Appended s m.pending_queue (put_nowait s t'.regime_master.pending_queue))
              (global_state-regime_master mid names a t)
              (put_nowait-Appended s t'.regime_master.pending_queue);
        bots_told =
            subst (λ queues. Reached s queues (push_all s t'.bot_queues))
              (global_state-bot_queues mid names a t) (push_all-Reached s t'.bot_queues);
      }

  publish-IsKept :
      (t : Orchestrator R Mo V) (s : GlobalState R) (t' : Orchestrator R Mo V)
      → All (λ (name, q). Fits q) t.bot_queues
      → t'.bot_queues ≡ t.bot_queues
      → IsKept t (distributed, publish models master (s, t'))
  publish-IsKept t s t' h e = rw e (push_all-Fits s t.bot_queues h, keys-push_all s t.bot_queues)

  distribute-IsKept :
      (valid : Dict R) (mid : Option R) (a : Answers R) (t : Orchestrator R Mo V)
      → All (λ (name, q). Fits q) t.bot_queues
      → IsKept t (distribute models master valid mid a t)
  unfolding distribute
  distribute-IsKept valid none a t h = (h, refl)
  distribute-IsKept valid (some mid) a t h =
      let (s, t') = global_state models master mid (keys valid) a t in
      by_test (IsKept t) (f.le mid nought) (invalid_global_mid, t)
        (distributed, publish models master (s, t')) (λ e. (h, refl))
        (λ e. publish-IsKept t s t' h (global_state-bot_queues mid (keys valid) a t))

  answered-IsKept :
      (valid : Dict R) (t : Orchestrator R Mo V) (answered : Outcome × Orchestrator R Mo V)
      → IsKept t (no_valid_tickers, t)
      → IsKept t answered
      → IsKept t (elim valid [ [] ↦ (no_valid_tickers, t) | _ ∷ _ ↦ answered ])
  answered-IsKept [] t answered h k = h
  answered-IsKept (v ∷ valid) t answered h k = k

  -- If no queue of a bot holds more than its size then, whatever is answered, a tick keeps every
  -- bot's queue within its size and leaves out no bot.
  tick_prices_kept :
      (a : Answers R) (t : Orchestrator R Mo V)
      → All (λ (name, q). Fits q) t.bot_queues
      → let (outcome, t') = tick_prices models master a t in
        All (λ (name, q). Fits q) t'.bot_queues × (keys t'.bot_queues ≡ keys t.bot_queues)
  unfolding tick_prices
  tick_prices_kept a t h =
      let valid = valid_prices a.tickers in
      let mid = global_mid (as_dict t.weights) valid in
      answered-IsKept valid t (distribute models master valid mid a t) (h, refl)
        (distribute-IsKept valid mid a t h)
