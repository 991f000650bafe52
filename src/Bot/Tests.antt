-- ===== src/Bot/Tests.antt =====
-- The bot on concrete inputs: an exchange whose database can refuse.
use mmp_meridian.Prelude.{
  ◌≡◌, ◌≤◌, arith, refl, true, false, some, none, List, [], ◌∷◌, All, length, inl,
}
use mmp_meridian.Prelude.Int.{ℤ, ◌+ℤ◌, ◌-ℤ◌}
use mmp_meridian.Prelude.Run.{ok, raised}
use mmp_meridian.Float.{◌≼◌}
use mmp_meridian.Float.Fixed.{
  fixed, fixed-IsOrdered, fixed-IsMonotone, fixed-IsPower, fixed-IsRounding, mul, div, pow, round,
}
use mmp_meridian.Samples.{micro, depth}
use mmp_meridian.Samples.Outside.{outside, dry, last, is_dry}
use mmp_meridian.Samples.Points.{points, sum, points-IsLinspace}
use mmp_meridian.Samples.Bots.{config, parts, fill, answers, rich, bot, state}
use mmp_meridian.Exchange.{sell}
use mmp_meridian.Safety.QSwitch.{initial}
use mmp_meridian.Quant.Aggressiveness.{high_vol_crash}
use mmp_meridian.Inventory.{update, skew_factor}
use mmp_meridian.Orders.Manager.{
  sync_open_orders, cancel_stale_by_age, place_all, remember, insert_order,
}
use mmp_meridian.Orders.Grid.{find_stale_orders, find_missing_levels}
use mmp_meridian.Orders.Steps.{IsReady}
use mmp_meridian.Orders.Coverage.{Covers}
use mmp_meridian.Regime.Observation.{ranging}
use mmp_meridian.Regime.Parameters.{mm_parameters}
use mmp_meridian.Bot.State.{other_error, Parts, Bot}
use mmp_meridian.Bot.Quotes.{quote_of, usd_amounts, raw_aggs}
use mmp_meridian.Bot.Tick.{admit, work, tick, ingest_fills}
use mmp_meridian.Bot.Loop.{
  Event, turned, heartbeat_failed, stopped, paused, run, run_turn, emergency_stop,
}
use mmp_meridian.Bot.Halted.{StaysHalted, run_halted}
use mmp_meridian.Bot.Quoting.{tick_posts}
use mmp_meridian.Bot.Uncrossed.{anchor, floor_of, quote_uncrossed, usd_amounts_floor}
use mmp_meridian.Bot.Recovery.{Recovered, run_turn-Recovered, emergency_stop_clears}
use mmp_meridian.Bot.Ingestion.{Ingested, ingest_fills_lem}

abbrev halted : Bot ℤ
halted = record bot { q_switch = record initial { triggered = true } }

abbrev events : List (Event ℤ)
events = turned (some state) ∷ heartbeat_failed ∷ paused ∷ turned none ∷ stopped ∷ []

run_halted_example : StaysHalted halted (run (answers true) parts events halted)
run_halted_example = run_halted (answers true) parts events halted refl refl

usd_amounts_floor_example :
    let amounts =
      usd_amounts parts high_vol_crash (micro 400_000) 3 (micro 1_200_000) sell (micro 500_000) in
    (length amounts ≡ 3) × All (λ a. floor_of fixed-IsOrdered parts high_vol_crash sell ≼ a) amounts
usd_amounts_floor_example =
    usd_amounts_floor fixed-IsOrdered fixed-IsMonotone parts high_vol_crash (micro 400_000) 3
      (micro 1_200_000) sell (micro 500_000) refl

quote_uncrossed_example :
    let g = (quote_of parts state (mm_parameters ranging) (micro 1_000_000)).grid in
    let middle = anchor fixed-IsOrdered (micro 25_000) (micro 100) in
    All (λ x. x ≼ middle) g.buy_prices × All (λ x. middle ≼ x) g.sell_prices
unfolding mul mm_parameters
quote_uncrossed_example =
    quote_uncrossed fixed-IsOrdered fixed-IsMonotone fixed-IsPower fixed-IsRounding parts
      points-IsLinspace (refl, refl, refl) state (mm_parameters ranging) (micro 1_000_000) refl refl
      refl

emergency_stop_clears_example :
    let b = (emergency_stop (answers true) parts bot).1 in
    (b.order_manager.open_orders ≡ []) × (b.running ≡ false) × (b.q_switch.triggered ≡ true)
unfolding outside
emergency_stop_clears_example =
    emergency_stop_clears (answers true) parts bot ((λ n. refl), inl refl)

ingest_fills_lem_example :
    let (r, b) = ingest_fills (answers false) parts bot in
    Ingested
      (answers false)
      parts
      fixed-IsOrdered
      (fill ∷ [])
      (some (micro 3_000_000))
      r
      b.last_fill_ts
ingest_fills_lem_example =
    ingest_fills_lem (answers false) parts fixed-IsOrdered bot (micro 3_000_000) (fill ∷ []) refl
      refl

-- No level, so that the tick comes to the fills, which the database refuses.
abbrev bare : Parts ℤ
bare = record parts { config = record config { depth = record depth { levels = 0 } } }

refused : (tick (answers false) bare state bot).0 ≡ raised
unfolding tick admit work sync_open_orders cancel_stale_by_age find_stale_orders place_all
    find_missing_levels quote_of points ◌-ℤ◌ ◌+ℤ◌ mul div
refused = refl

run_turn-Recovered_example :
    let c = (tick (answers false) bare state bot).1 in
    let (r, b) = run_turn (answers false) bare (some state) bot in
    (r ≡ ok tt)
    × (b.order_manager ≡ c.order_manager)
    × Recovered (answers false) bare other_error false false c b
run_turn-Recovered_example = run_turn-Recovered (answers false) bare state bot refused

bot-IsReady : IsReady outside dry last bot.order_manager
bot-IsReady = record { keyed = tt; fresh = λ n h l. refl }

admitted :
    admit (answers true) parts state bot
    ≡ (ok (some (mm_parameters ranging, rich)), (admit (answers true) parts state bot).1)
unfolding admit ◌-ℤ◌ ◌+ℤ◌ mul div
admitted = refl

call_count : (tick (answers true) parts state bot).1.order_manager.count ≡ 22
unfolding tick admit work sync_open_orders cancel_stale_by_age find_stale_orders place_all
    find_missing_levels quote_of points ◌-ℤ◌ ◌+ℤ◌ mul div outside sum pow raw_aggs round remember
    insert_order
call_count = refl

few_calls : (tick (answers true) parts state bot).1.order_manager.count ≤ last
few_calls = omega (arith, call_count)

tick_posts_example :
    let q =
      quote_of parts state
        (mm_parameters ranging)
        (skew_factor (update rich (admit (answers true) parts state bot).1.inventory)) in
    let b = (tick (answers true) parts state bot).1 in
    IsReady outside dry last b.order_manager × Covers q.grid b.order_manager
tick_posts_example =
    tick_posts (answers true) parts fixed-IsOrdered fixed-IsMonotone last is_dry state bot
      (admit (answers true) parts state bot).1 (mm_parameters ranging) rich bot-IsReady admitted
      few_calls
