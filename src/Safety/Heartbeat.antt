-- ===== src/Safety/Heartbeat.antt =====
-- safety/heartbeat.py: counts the checks that find the tick loop late. One round of the monitor is
-- `check`, at the time after its sleep; a signal says whether the failure callback was called.
use mmp_meridian.Prelude.{
  ℕ, ◌+◌, ◌≤◌, ◌<◌, ◌≡◌, refl, Bool, true, false, leb, if◌then◌else◌, arith, List, [], Bool-cases,
  inl, inr, ◌∙◌, ◌∷◌, length,
}
use mathlib.Core.Path.{ap₂}
use mmp_meridian.Float.{Float}
use mmp_meridian.Config.{SafetyConfig}

pub record Heartbeat (R : Type 0) : Type 0 where
  pub last_beat : R
  pub missed : ℕ
  pub failed : Bool

-- What reaches the monitor: a beat of the tick loop, or the end of a sleep of the monitor.
pub data Signal (R : Type 0) : Type 0 where
  beat_at check_at : R → Signal R

module _ {R : Type 0} ⦃f : Float R⦄ (config : SafetyConfig R) where
  open f use {sub, mul, lt, decimal}

  unfoldable pub beat : R → Heartbeat R → Heartbeat R
  beat now s = record s { last_beat = now; missed = 0 }

  abbrev is_late : R → Heartbeat R → Bool
  is_late now s = lt (mul config.heartbeat_interval_s (decimal 15 1)) (sub now s.last_beat)

  -- `failed` ends the loop of the monitor.
  unfoldable pub check : R → Heartbeat R → Heartbeat R
  check now s =
      if is_late now s
      then (if leb config.max_missed_heartbeats (s.missed + 1)
          then record s { missed = s.missed + 1; failed = true }
          else record s { missed = s.missed + 1 })
      else record s { missed = 0 }

  unfoldable pub round : R → Heartbeat R → Heartbeat R
  unfolding check
  round now s = if s.failed then s else check now s

  unfoldable pub monitor : List (Signal R) → Heartbeat R → Heartbeat R
  unfolding beat round
  monitor [] s = s
  monitor (beat_at now ∷ ss) s = monitor ss (beat now s)
  monitor (check_at now ∷ ss) s = monitor ss (round now s)

  -- The late checks in a row at the end of a run, by a plain count over its signals.
  unfoldable late_in_a_row : List (Signal R) → R → ℕ → ℕ
  late_in_a_row [] last n = n
  late_in_a_row (beat_at now ∷ ss) last n = late_in_a_row ss now 0
  late_in_a_row (check_at now ∷ ss) last n =
      late_in_a_row ss last
        (if lt (mul config.heartbeat_interval_s (decimal 15 1)) (sub now last) then n + 1 else 0)

  round_quiet :
      (now : R) (s : Heartbeat R)
      → (round now s).failed ≡ false
      → ((round now s).missed ≡ (if is_late now s then s.missed + 1 else 0))
        × ((round now s).last_beat ≡ s.last_beat)
        × (s.failed ≡ false)
        × (s.missed < config.max_missed_heartbeats
            → (round now s).missed < config.max_missed_heartbeats)
  unfolding round
  round_quiet now s h = ground arith

  monitor_quiet :
      (ss : List (Signal R)) (s : Heartbeat R) → (monitor ss s).failed ≡ false → s.failed ≡ false
  unfolding monitor
  monitor_quiet [] s h = h
  monitor_quiet (beat_at now ∷ ss) s h =
      monitor_quiet ss (record s { last_beat = now; missed = 0 }) h
  monitor_quiet (check_at now ∷ ss) s h = (round_quiet now s (monitor_quiet ss (round now s) h)).2

  -- While the monitor has not called the failure callback, its counter is the number of late checks
  -- in a row since the last beat or punctual check.
  monitor_counts :
      (ss : List (Signal R)) (s : Heartbeat R)
      → (monitor ss s).failed ≡ false
      → (monitor ss s).missed ≡ late_in_a_row ss s.last_beat s.missed
  unfolding monitor late_in_a_row
  monitor_counts [] s h = refl
  monitor_counts (beat_at now ∷ ss) s h = monitor_counts ss (beat now s) h
  monitor_counts (check_at now ∷ ss) s h =
      let (counted, same, _, _) = round_quiet now s (monitor_quiet ss (round now s) h) in
      monitor_counts ss (round now s) h ∙ ap₂ (late_in_a_row ss) same counted

  -- As long as the callback has not been called, fewer checks than the configured maximum were late
  -- in a row.
  monitor-missed-lt :
      (ss : List (Signal R)) (s : Heartbeat R)
      → s.missed < config.max_missed_heartbeats
      → (monitor ss s).failed ≡ false
      → (monitor ss s).missed < config.max_missed_heartbeats
  unfolding monitor
  monitor-missed-lt [] s b h = b
  monitor-missed-lt (beat_at now ∷ ss) s b h = monitor-missed-lt ss (beat now s) (omega arith) h
  monitor-missed-lt (check_at now ∷ ss) s b h =
      monitor-missed-lt ss (round now s)
        ((round_quiet now s (monitor_quiet ss (round now s) h)).3 b) h

  -- If the count of late checks in a row grows by one at each signal of a run, and the run brings it
  -- from below the configured maximum to that or beyond, the callback has been called.
  monitor_fires :
      (ss : List (Signal R)) (s : Heartbeat R)
      → late_in_a_row ss s.last_beat s.missed ≡ s.missed + length ss
      → s.missed < config.max_missed_heartbeats
      → config.max_missed_heartbeats ≤ s.missed + length ss
      → (monitor ss s).failed ≡ true
  monitor_fires ss s late b enough = elim (Bool-cases (monitor ss s).failed) [
    | inl e ↦ e
    | inr e ↦ absurd (omega (arith, monitor_counts ss s e, monitor-missed-lt ss s b e))
  ]
