-- ===== src/Regime/Reconcile.antt =====
-- What the regime master broadcasts, and its queues.
use mmp_meridian.Prelude.{
  ℕ, ◌≤◌, ◌≡◌, refl, ◌∙◌, by_test, Bool, List, [], ◌∷◌, ◌++◌, ltb, map, keep, length, ◌==◌,
  if◌then◌else◌, arith, All, All-append, length-append,
}
use mmp_meridian.Float.{Float, ◌≼◌, IsOrdered, nought}
use mmp_meridian.Regime.Observation.{
  Regime, ranging, trending, high_vol, thin_book, Model, update_from_floats, get_regime,
  get_regime_confidence,
}
use mmp_meridian.Regime.Parameters.{MmParameters, mm_parameters, conservative_params}
use mmp_meridian.Quant.Aggressiveness.{ZzRegime, trending_up, trending_down, choppy}
use mmp_meridian.Regime.Master.{
  price_change_rate, Queue, put_nowait, popleft, GlobalState, RegimeState, regimes_agree,
  zz_to_hmm_regime, RegimeMaster, default_regime_state, fresh_master, reconcile, broadcast,
  process_state, push_state, regime_loop_turn, add_subscriber, remove_subscriber, receive, Event,
  pushed, turn, subscribed, unsubscribed, received, handle, run,
}

module _ {R : Type 0} ⦃f : Float R⦄ where
  -- The parameters quote no tighter, no deeper and no more aggressively than others.
  abbrev pub IsCautious : MmParameters R → MmParameters R → Type 0
  IsCautious a b =
      (b.spread_mult ≼ a.spread_mult)
      × (a.depth_mult ≼ b.depth_mult)
      × (a.aggressiveness ≼ b.aggressiveness)

  same :
      (o : IsOrdered R) (regime : Regime) → IsCautious (mm_parameters regime) (mm_parameters regime)
  same o regime =
      let p = mm_parameters {R = R} regime in
      (o.le_refl p.spread_mult, o.le_refl p.depth_mult, o.le_refl p.aggressiveness)

  -- On ordered decimals, however the two classifiers answer, the parameters broadcast are at
  -- least as cautious as those of the regime that the hidden Markov model names: no narrower a
  -- spread, no greater a depth, no more aggressive.
  reconcile-IsCautious :
      (o : IsOrdered R) (regime : Regime) (confidence : R) (zz : ZzRegime) (timestamp : R)
      → IsCautious (reconcile regime confidence zz timestamp).mm_params (mm_parameters regime)
  unfolding reconcile mm_parameters conservative_params regimes_agree zz_to_hmm_regime
  reconcile-IsCautious o ranging confidence choppy timestamp = same o ranging
  reconcile-IsCautious o ranging confidence trending_up timestamp =
      (o.decimal_le 10 1 20 1 refl, o.decimal_le 5 1 10 1 refl, o.decimal_le 3 1 8 1 refl)
  reconcile-IsCautious o ranging confidence trending_down timestamp =
      (o.decimal_le 10 1 20 1 refl, o.decimal_le 5 1 10 1 refl, o.decimal_le 3 1 8 1 refl)
  reconcile-IsCautious o trending confidence choppy timestamp =
      (o.decimal_le 15 1 20 1 refl, o.decimal_le 5 1 7 1 refl, o.decimal_le 3 1 4 1 refl)
  reconcile-IsCautious o trending confidence trending_up timestamp = same o trending
  reconcile-IsCautious o trending confidence trending_down timestamp = same o trending
  reconcile-IsCautious o high_vol confidence zz timestamp = same o high_vol
  reconcile-IsCautious o thin_book confidence zz timestamp = same o thin_book

abbrev pub Fits : {A : Type 0} → Queue A → Type 0
Fits q = length q.items ≤ q.maxsize

pub put_nowait-Fits : {A : Type 0} (a : A) (q : Queue A) → Fits q → Fits (put_nowait a q)
unfolding put_nowait
put_nowait-Fits a q h = ground (arith, h, length-append q.items (a ∷ []))

put_nowait-maxsize : {A : Type 0} (a : A) (q : Queue A) → (put_nowait a q).maxsize ≡ q.maxsize
unfolding put_nowait
put_nowait-maxsize a q = ground arith

popleft-maxsize : {A : Type 0} (q : Queue A) → (popleft q).maxsize ≡ q.maxsize
popleft-maxsize q = ground arith

popleft-Fits : {A : Type 0} (q : Queue A) → Fits q → Fits (popleft q)
popleft-Fits q h = ground (arith, h)

module _ {R : Type 0} ⦃f : Float R⦄ where
  -- The parameters of a state are as cautious as those of the regime that it names.
  abbrev IsGuarded : RegimeState R → Type 0
  IsGuarded state = IsCautious state.mm_params (mm_parameters state.regime)

  -- A subscriber's queue holds no more than its size, and every state that waits in it is guarded.
  abbrev pub Serves : ℕ × Queue (RegimeState R) → Type 0
  Serves (i, q) = Fits q × All IsGuarded q.items

  reconcile-IsGuarded :
      (o : IsOrdered R) (regime : Regime) (confidence : R) (zz : ZzRegime) (timestamp : R)
      → IsGuarded (reconcile regime confidence zz timestamp)
  unfolding reconcile
  reconcile-IsGuarded o regime confidence zz timestamp =
      reconcile-IsCautious o regime confidence zz timestamp

  put_nowait-Serves :
      (state : RegimeState R) (i : ℕ) (q : Queue (RegimeState R))
      → IsGuarded state
      → Serves (i, q)
      → Serves (i, put_nowait state q)
  unfolding put_nowait
  put_nowait-Serves state i q g (h, k) =
      by_test (λ q'. Serves (i, q')) (ltb (length q.items) q.maxsize)
        (record q { items = q.items ++ state ∷ [] }) q
        (λ e. (
          ground (arith, e, length-append q.items (state ∷ [])),
          All-append _ q.items (state ∷ []) k (g, tt),
        ))
        (λ e. (h, k))

  shifted-Serves :
      (i : ℕ) (size : ℕ) (items : List (RegimeState R))
      → let q : Queue (RegimeState R) = record { maxsize = size; items = items } in
        Serves (i, q) → Serves (i, popleft q)
  shifted-Serves i size [] h = h
  shifted-Serves i size (x ∷ items) (h, (k, ks)) = (omega (arith, h), ks)

  broadcast-Serves :
      (state : RegimeState R) (qs : List (ℕ × Queue (RegimeState R)))
      → IsGuarded state
      → All Serves qs
      → All Serves (map (λ (i, q). (i, put_nowait state q)) qs)
  broadcast-Serves state [] g h = tt
  broadcast-Serves state ((i, q) ∷ qs) g (h, hs) =
      (put_nowait-Serves state i q g h, broadcast-Serves state qs g hs)

  receive-Serves :
      (i : ℕ) (qs : List (ℕ × Queue (RegimeState R)))
      → All Serves qs
      → All Serves (map (λ (j, q). (j, if j == i then popleft q else q)) qs)
  receive-Serves i [] h = tt
  receive-Serves i ((j, q) ∷ qs) (h, hs) = (
    by_test (λ q'. Serves (j, q')) (j == i) (popleft q) q
        (λ e. shifted-Serves j q.maxsize q.items h) (λ e. h),
    receive-Serves i qs hs,
  )

  keep-Serves :
      (test : ℕ × Queue (RegimeState R) → Bool) (qs : List (ℕ × Queue (RegimeState R)))
      → All Serves qs
      → All Serves (keep test qs)
  keep-Serves test [] h = tt
  keep-Serves test (q ∷ qs) (h, hs) =
      by_test (All Serves) (test q) (q ∷ keep test qs) (keep test qs)
        (λ e. (h, keep-Serves test qs hs)) (λ e. keep-Serves test qs hs)

  -- A queue that subscribes is one that a subscriber may have.
  abbrev Arrives : Event R → Type 0
  Arrives (subscribed i q) = Serves (i, q)
  Arrives _ = Unit

module _ {R V : Type 0} ⦃f : Float R⦄ (model : Model R V) (o : IsOrdered R) where
  -- The current state is guarded, the pending queue keeps its size, and every subscriber's queue may
  -- be one.
  abbrev IsSound : RegimeMaster R V → Type 0
  IsSound m =
      IsGuarded m.current
      × (m.pending_queue.maxsize ≡ 10)
      × Fits m.pending_queue
      × All Serves m.subscriber_queues

  process_state-IsSound :
      (s : GlobalState R) (m : RegimeMaster R V) → IsSound m → IsSound (process_state model s m)
  unfolding process_state broadcast
  process_state-IsSound s m (h, size, fits, all) =
      let change = price_change_rate m.prev_mid s.global_mid in
      let d =
        update_from_floats model s.volatility (f.mul s.zz_vol (f.decimal 100 0)) nought nought
          change m.detector in
      let g =
        reconcile-IsGuarded o (get_regime model d) (get_regime_confidence model d) s.zz_regime
          s.timestamp in
      (g, size, fits, broadcast-Serves _ m.subscriber_queues g all)

  taken-IsSound :
      (m : RegimeMaster R V) (items : List (GlobalState R))
      → IsSound m
      → IsSound (elim items [
        | [] ↦ m
        | s ∷ rest ↦ process_state model s (record m { pending_queue = popleft m.pending_queue })
      ])
  taken-IsSound m [] h = h
  taken-IsSound m (s ∷ rest) (h, size, fits, all) =
      process_state-IsSound s (record m { pending_queue = popleft m.pending_queue })
        (h, popleft-maxsize m.pending_queue ∙ size, popleft-Fits m.pending_queue fits, all)

  handle-IsSound :
      (e : Event R) (m : RegimeMaster R V) → Arrives e → IsSound m → IsSound (handle model e m)
  unfolding handle push_state regime_loop_turn add_subscriber remove_subscriber receive
  handle-IsSound (pushed s) m a (h, size, fits, all) =
      (h, put_nowait-maxsize s m.pending_queue ∙ size, put_nowait-Fits s m.pending_queue fits, all)
  handle-IsSound turn m a h = taken-IsSound m m.pending_queue.items h
  handle-IsSound (subscribed i q) m a (h, size, fits, all) =
      (h, size, fits, All-append _ m.subscriber_queues ((i, q) ∷ []) all (a, tt))
  handle-IsSound (unsubscribed i) m a (h, size, fits, all) =
      (h, size, fits, keep-Serves _ m.subscriber_queues all)
  handle-IsSound (received i) m a (h, size, fits, all) =
      (h, size, fits, receive-Serves i m.subscriber_queues all)

  run-IsSound :
      (es : List (Event R)) (m : RegimeMaster R V)
      → All Arrives es
      → IsSound m
      → IsSound (run model es m)
  unfolding run
  run-IsSound [] m a h = h
  run-IsSound (e ∷ es) m (a, as') h = run-IsSound es (handle model e m) as' (handle-IsSound e m a h)

  fresh-IsSound : IsSound (fresh_master model)
  unfolding default_regime_state
  fresh-IsSound = (same o ranging, refl, omega arith, tt)

  -- On ordered decimals, from the start, however the two classifiers answer, and whatever is pushed,
  -- subscribed, unsubscribed and received in whatever order, if each queue that subscribes holds at
  -- most its size and only states with cautious parameters: the pending queue holds at most ten
  -- states, a subscriber's queue at most its size, and the parameters of every state that waits for
  -- a bot, like those of the current state, are at least as cautious as those of the regime that the
  -- state names: no narrower a spread, no greater a depth, no more aggressive.
  pub run-bounded :
      (es : List (Event R))
      → All Arrives es
      → let m = run model es (fresh_master model) in
        (length m.pending_queue.items ≤ 10)
        × All Serves m.subscriber_queues
        × IsCautious m.current.mm_params (mm_parameters m.current.regime)
  run-bounded es a =
      let (h, size, fits, all) = run-IsSound es (fresh_master model) a fresh-IsSound in
      (omega (arith, size, fits), all, h)
