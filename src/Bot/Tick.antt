-- ===== src/Bot/Tick.antt =====
-- One tick of the bot: what must hold before it quotes (`admit`), and the quoting (`work`).
use mmp_meridian.Prelude.{Bool, true, false, not, Option, none, some, List, length, if◌then◌else◌}
use mmp_meridian.Prelude.Run.{ok, pure, gets, try_except, modify, ◌>>=◌, ◌>>◌, for_each}
use mathlib.Core.Option
use mmp_meridian.Prelude.Dict.{values}
use mmp_meridian.Float.{Float}
use mmp_meridian.Exchange.{Balance, Fill, Order}
use mmp_meridian.Safety.QSwitch.{check}
use mmp_meridian.Safety.CircuitBreaker.{record_equity}
use mmp_meridian.Inventory.{record_initial, update, skew_factor}
use mmp_meridian.Orders.Manager.{diff_and_repost}
use mmp_meridian.Fills.Paper.{set_open_orders}
use mmp_meridian.Regime.Parameters.{MmParameters}
use mmp_meridian.Regime.Master.{GlobalState}
use mmp_meridian.Bot.State.{
  Call, Answers, Parts, B, Quote, ask, read, managed, request, acquire_token,
}
use mmp_meridian.Bot.Regimes.{drain_regime_queue, resolve_mm_params}
use mmp_meridian.Bot.Quotes.{quote_of}

module _ {R : Type 0} ⦃f : Float R⦄ (out : Answers R) (p : Parts R) where
  open f use {add, sub, lt, le, decimal}

  abbrev pub skip : B R (Unit {0})
  skip = pure tt

  abbrev pub when : Bool → B R (Unit {0}) → B R (Unit {0})
  when true m = m
  when false m = skip

  -- The `try` body of `_get_balance`.
  unfoldable pub fetch_balance : B R (Balance R)
  fetch_balance = do
    acquire_token
    fetched ← ask Call.fetch_balance out.fetch_balance
    modify λ b. record b { balance = some fetched }
    time ← read out.now
    modify λ b. record b { balance_cached_at = time }
    pure fetched

  unfoldable pub refreshed : B R (Option (Balance R))
  unfolding fetch_balance
  refreshed = do try_except (fetch_balance >> skip) skip; gets λ b. b.balance

  abbrev if_stale : Option (Balance R) → B R (Option (Balance R))
  if_stale none = refreshed
  if_stale (some cached) = do
    time ← read out.now
    cached_at ← gets λ b. b.balance_cached_at
    if lt (decimal 10 0) (sub time cached_at) then refreshed else pure (some cached)

  unfoldable pub get_balance : B R (Option (Balance R))
  unfolding refreshed
  get_balance = do cached ← gets λ b. b.balance; if_stale cached

  -- The safety checks on a balance; `true` lets the tick go on.
  unfoldable pub is_safe : GlobalState R → Balance R → B R Bool
  unfolding check record_equity
  is_safe s balance = do
    time ← read out.now
    halted ← λ b.
        let (halt, q) = check p.safety p.config.exchange balance time b.q_switch in
        (ok halt, record b { q_switch = q })
    if halted then pure false else do
      today ← read out.today
      modify λ b. record b {
        circuit_breaker =
            record_equity p.safety balance.usd balance.token s.global_mid today b.circuit_breaker;
      }
      tripped ← gets λ b. b.circuit_breaker.tripped
      pure (not tripped)

  abbrev pub if_some :
      GlobalState R
      → MmParameters R
      → Option (Balance R)
      → B R (Option (MmParameters R × Balance R))
  if_some s mm none = pure none
  if_some s mm (some balance) = do
    safe ← is_safe s balance
    pure (if safe then some (mm, balance) else none)

  -- The tick up to its last early return; `none` is an early return.
  unfoldable pub admit : GlobalState R → B R (Option (MmParameters R × Balance R))
  unfolding drain_regime_queue resolve_mm_params get_balance is_safe
  admit s = do
    modify λ b. drain_regime_queue (record b { last_global_state = some s })
    mm ← gets (resolve_mm_params s)
    balance ← get_balance
    if_some s mm balance

  abbrev is_later : Option R → R → Bool
  is_later none ts = true
  is_later (some last) ts = lt last ts

  abbrev pub noted : Option R → R → Option R
  noted last ts = if is_later last ts then some ts else last

  unfoldable pub note_fill : Fill R → B R (Unit {0})
  note_fill fill = do
    request (Call.insert_fill fill) out.db
    modify λ b. record b { last_fill_ts = noted b.last_fill_ts fill.timestamp }

  abbrev pub since_of : Option R → B R R
  since_of none = do time ← read out.now; pure (sub time (decimal 3600 0))
  since_of (some last) = pure (add last (decimal 1 3))

  abbrev pub fetch_fills : R → B R (Option (List (Fill R)))
  fetch_fills since =
      try_except
        (do
          acquire_token
          fills ← ask (Call.fetch_fills since) (λ n. out.fetch_fills n since)
          pure (some fills))
        (pure none)

  abbrev pub note_fills : Option (List (Fill R)) → B R (Unit {0})
  note_fills none = skip
  note_fills (some fills) = for_each note_fill fills

  unfoldable pub ingest_fills : B R (Unit {0})
  unfolding note_fill
  ingest_fills = do
    last ← gets λ b. b.last_fill_ts
    since ← since_of last
    fills ← fetch_fills since
    note_fills fills

  unfoldable pub poll_fills : R → B R (Unit {0})
  unfolding ingest_fills
  poll_fills ts = do
    last ← gets λ b. b.last_fill_poll_at
    when (le (decimal 5 0) (sub ts last))
        do ingest_fills; modify λ b. record b { last_fill_poll_at = ts }

  unfoldable pub write_snapshot : R → GlobalState R → Balance R → Quote R → B R (Unit {0})
  write_snapshot ts s balance q = do
    last ← gets λ b. b.last_snapshot_at
    when (le (decimal 30 0) (sub ts last)) do
      request (Call.insert_inventory_snapshot balance s q) out.db
      modify λ b. record b { last_snapshot_at = ts }

  unfoldable pub write_rl_features : R → GlobalState R → Quote R → B R (Unit {0})
  write_rl_features ts s q = do
    last ← gets λ b. b.last_rl_at
    when (le (decimal 10 0) (sub ts last)) do
      fill_rate ← ask Call.get_fill_rate out.fill_rate
      pnl_1h ← ask Call.get_recent_pnl out.recent_pnl
      request (Call.insert_rl_features s q fill_rate pnl_1h) out.db
      modify λ b. record b { last_rl_at = ts }

  abbrev pub emit_tick : GlobalState R → Quote R → List (Order R) → B R (Unit {0})
  emit_tick s q placed = do
    open_order_count ← gets λ b. length (values b.order_manager.open_orders)
    request (Call.emit_tick s q open_order_count (length placed)) out.emit

  -- The periodic writes and the event, at the time `ts`.
  abbrev pub writes : GlobalState R → Balance R → Quote R → List (Order R) → R → B R (Unit {0})
  writes s balance q placed ts = do
    poll_fills ts
    write_snapshot ts s balance q
    write_rl_features ts s q
    emit_tick s q placed

  -- The tick after the orders are posted.
  unfoldable pub report : GlobalState R → Balance R → Quote R → List (Order R) → B R (Unit {0})
  unfolding set_open_orders poll_fills write_snapshot write_rl_features
  report s balance q placed = do
    modify λ b. record b {
      paper_trader =
          Option.map (set_open_orders (values b.order_manager.open_orders)) b.paper_trader;
    }
    ts ← read out.now
    writes s balance q placed ts

  -- The tick of a bot that may quote.
  unfoldable pub work : GlobalState R → MmParameters R → Balance R → B R (Unit {0})
  unfolding update skew_factor diff_and_repost report
  work s mm balance = do
    modify λ b. record b { inventory = update balance b.inventory }
    skew ← gets λ b. skew_factor b.inventory
    placed ← managed (diff_and_repost out.orders p.orders (quote_of p s mm skew).grid)
    report s balance (quote_of p s mm skew) placed

  abbrev pub work_if : GlobalState R → Option (MmParameters R × Balance R) → B R (Unit {0})
  work_if s none = skip
  work_if s (some (mm, balance)) = work s mm balance

  unfoldable pub tick : GlobalState R → B R (Unit {0})
  tick s = do admitted ← admit s; work_if s admitted

  -- `_warmup`; nothing sets the attribute `_initial_balance` that it looks for.
  unfoldable pub warmup : B R (Unit {0})
  unfolding record_initial
  warmup =
      try_except
        (do
          balance ← fetch_balance
          modify λ b. record b { inventory = record_initial balance b.inventory })
        skip
