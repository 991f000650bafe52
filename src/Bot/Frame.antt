-- ===== src/Bot/Frame.antt =====
-- What the steps of a tick leave alone: only `managed` touches the order manager, and only the check
-- and the stops touch the Q-Switch.
use mmp_meridian.Prelude.{◌≡◌, ◌+◌, Option, none, some, List, [], ◌∷◌, arith}
use mathlib.Core.Option
use mmp_meridian.Prelude.Dict.{values}
use mmp_meridian.Fills.Paper.{set_open_orders}
use mmp_meridian.Prelude.Run.{Result, ok, raised, ◌>>=◌, ◌>>◌, for_each}
use mmp_meridian.Float.{Float}
use mmp_meridian.Exchange.{Balance, Fill, Order}
use mmp_meridian.Regime.Master.{GlobalState}
use mmp_meridian.Bot.State.{Answers, Parts, Bot, B, Quote}
use mmp_meridian.Bot.Tick.{
  fetch_balance, refreshed, get_balance, note_fill, fetch_fills, note_fills, since_of, ingest_fills,
  poll_fills, write_snapshot, write_rl_features, emit_tick, writes, report,
}

-- The order manager and the Q-Switch are the same.
abbrev pub Same : {R : Type 0} → Bot R → Bot R → Type 0
Same b b' = (b'.order_manager ≡ b.order_manager) × (b'.q_switch ≡ b.q_switch)

module _ {R A C : Type 0} where
  Same-step :
      (r : Result A) (g : A → B R C) (b b' : Bot R)
      → Same b b'
      → ((a : A) (c : Bot R) → Same c (g a c).1)
      → Same b (elim r as (λ _. Result C × Bot R) [ ok a ↦ g a b' | raised ↦ (raised, b') ]).1
  Same-step (ok a) g b b' h k = ground (arith, k a b')
  Same-step raised g b b' h k = h

  -- A sequence of steps that leave both alone leaves them alone.
  Same-bind :
      (m : B R A) (g : A → B R C)
      → ((b : Bot R) → Same b (m b).1)
      → ((a : A) (b : Bot R) → Same b (g a b).1)
      → (b : Bot R) → Same b ((m >>= g) b).1
  Same-bind m g h k b = Same-step (m b).0 g b (m b).1 (h b) k

module _ {R : Type 0} ⦃f : Float R⦄ (out : Answers R) (p : Parts R) where
  since_of-Same : (last : Option R) (b : Bot R) → Same b (since_of out p last b).1
  since_of-Same none b = ground arith
  since_of-Same (some last) b = ground arith

  fetch_balance-Same : (b : Bot R) → Same b (fetch_balance out p b).1
  unfolding fetch_balance
  fetch_balance-Same b = ground arith

  get_balance-Same : (b : Bot R) → Same b (get_balance out p b).1
  unfolding get_balance refreshed
  get_balance-Same b = ground (arith, fetch_balance-Same b)

  write_snapshot-Same :
      (ts : R) (s : GlobalState R) (balance : Balance R) (q : Quote R) (b : Bot R)
      → Same b (write_snapshot out p ts s balance q b).1
  unfolding write_snapshot
  write_snapshot-Same ts s balance q b = ground arith

  write_rl_features-Same :
      (ts : R) (s : GlobalState R) (q : Quote R) (b : Bot R)
      → Same b (write_rl_features out p ts s q b).1
  unfolding write_rl_features
  write_rl_features-Same ts s q b = ground arith

  note_fills-Same :
      (fills : List (Fill R)) (b : Bot R) → Same b (for_each (note_fill out p) fills b).1
  unfolding note_fill
  note_fills-Same [] b = ground arith
  note_fills-Same (fill ∷ fills) b =
      ground (arith, note_fills-Same fills (note_fill out p fill b).1)

  note_found-Same :
      (found : Option (List (Fill R))) (b : Bot R) → Same b (note_fills out p found b).1
  note_found-Same none b = ground arith
  note_found-Same (some fills) b = note_fills-Same fills b

  fetch_fills-Same : (since : R) (b : Bot R) → Same b (fetch_fills out p since b).1
  fetch_fills-Same since b = ground arith

  ingest_fills-Same : (b : Bot R) → Same b (ingest_fills out p b).1
  unfolding ingest_fills
  ingest_fills-Same b =
      Same-bind (since_of out p b.last_fill_ts)
        (λ since. fetch_fills out p since >>= note_fills out p) (since_of-Same b.last_fill_ts)
        (λ since.
          Same-bind (fetch_fills out p since) (note_fills out p) (fetch_fills-Same since)
            note_found-Same)
        b

  poll_fills-Same : (ts : R) (b : Bot R) → Same b (poll_fills out p ts b).1
  unfolding poll_fills
  poll_fills-Same ts b = ground (arith, ingest_fills-Same b)

  writes-Same :
      (s : GlobalState R) (balance : Balance R) (q : Quote R) (placed : List (Order R)) (ts : R)
      (b : Bot R)
      → Same b (writes out p s balance q placed ts b).1
  writes-Same s balance q placed ts =
      let emit = emit_tick out p s q placed in
      let features = write_rl_features out p ts s q in
      let snapshot = write_snapshot out p ts s balance q in
      Same-bind (poll_fills out p ts) (λ _. snapshot >> (features >> emit)) (poll_fills-Same ts)
        λ _.
          Same-bind snapshot (λ _. features >> emit) (write_snapshot-Same ts s balance q)
            λ _. Same-bind features (λ _. emit) (write_rl_features-Same ts s q) λ _ b. ground arith

  pub report-Same :
      (s : GlobalState R) (balance : Balance R) (q : Quote R) (placed : List (Order R)) (b : Bot R)
      → Same b (report out p s balance q placed b).1
  unfolding report
  report-Same s balance q placed b = writes-Same s balance q placed (out.now b.count) (record b {
    paper_trader = Option.map (set_open_orders (values b.order_manager.open_orders)) b.paper_trader;
    count = b.count + 1;
  })
