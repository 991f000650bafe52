-- ===== src/Safety/QSwitch.antt =====
-- safety/q_switch.py: the emergency stop of one exchange. The webhook tasks that are started are
-- kept in `alerts`, the latest first; the time of a trigger is an argument.
use mmp_meridian.Prelude.{
  ℕ, ◌+◌, ◌≤◌, ◌≡◌, Bool, true, false, Option, none, some, String, List, [], ◌∷◌, length,
  if◌then◌else◌, arith,
}
use mmp_meridian.Float.{Float, nought}
use mmp_meridian.Exchange.{Balance}
use mmp_meridian.Config.{SafetyConfig}

-- The texts that `check` formats, with the two numbers that stand in them, and the API's text.
pub data Reason (R : Type 0) : Type 0 where
  low_usd low_token : R → R → Reason R
  manual : String → Reason R

pub record Event (R : Type 0) : Type 0 where
  pub exchange : String
  pub reason : Reason R
  pub triggered_at : R
  pub balance_usd : R
  pub balance_token : R

pub record QSwitch (R : Type 0) : Type 0 where
  pub triggered : Bool
  pub trigger_event : Bool
  pub last_event : Option (Event R)
  pub alerts : List (Event R)

abbrev pub initial : {R : Type 0} → QSwitch R
initial = record { triggered = false; trigger_event = false; last_event = none; alerts = [] }

-- The calls that reach a Q-Switch, in the order in which they are made.
pub data Call (R : Type 0) : Type 0 where
  checked : Balance R → R → Call R
  triggered_manually : String → R → Call R
  was_reset : Call R

module _ {R : Type 0} where
  abbrev resets : List (Call R) → ℕ
  resets [] = 0
  resets (was_reset ∷ cs) = resets cs + 1
  resets (checked b now ∷ cs) = resets cs
  resets (triggered_manually text now ∷ cs) = resets cs

  -- The flag, the asyncio event and the stored event agree.
  pub record IsConsistent (s : QSwitch R) : Type 0 where
    pub signalled : s.trigger_event ≡ s.triggered
    pub recorded : s.last_event ≡ none → s.triggered ≡ false
    pub cleared : s.triggered ≡ false → s.last_event ≡ none

  abbrev armed : QSwitch R → ℕ
  armed s = if s.triggered then 0 else 1

module _ {R : Type 0} ⦃f : Float R⦄ (config : SafetyConfig R) (exchange : String) where
  open f use {lt}

  abbrev event_of : Reason R → R → Option (Balance R) → Event R
  event_of reason now none = record {
    exchange = exchange;
    reason = reason;
    triggered_at = now;
    balance_usd = nought;
    balance_token = nought;
  }
  event_of reason now (some b) = record {
    exchange = exchange;
    reason = reason;
    triggered_at = now;
    balance_usd = b.usd;
    balance_token = b.token;
  }

  unfoldable fire : Reason R → R → Option (Balance R) → QSwitch R → QSwitch R
  fire reason now balance s =
      let event = event_of reason now balance in
      record {
        triggered = true;
        trigger_event = true;
        last_event = some event;
        alerts = elim config.alert_webhook_url [ none ↦ s.alerts | some url ↦ event ∷ s.alerts ];
      }

  unfoldable pub check : Balance R → R → QSwitch R → Bool × QSwitch R
  unfolding fire
  check balance now s =
      if s.triggered
      then (true, s)
      else if lt balance.usd config.min_balance_usd
      then (true, fire (low_usd balance.usd config.min_balance_usd) now (some balance) s)
      else if lt balance.token config.min_balance_token
      then (true, fire (low_token balance.token config.min_balance_token) now (some balance) s)
      else (false, s)

  unfoldable pub trigger_manually : String → R → QSwitch R → QSwitch R
  unfolding fire
  trigger_manually text now s = if s.triggered then s else fire (manual text) now none s

  unfoldable pub reset : QSwitch R → QSwitch R
  reset s =
      if s.triggered
      then record s { triggered = false; trigger_event = false; last_event = none }
      else s

  unfoldable pub apply : Call R → QSwitch R → QSwitch R
  unfolding check trigger_manually reset
  apply (checked b now) s = (check b now s).1
  apply (triggered_manually text now) s = trigger_manually text now s
  apply was_reset s = reset s

  unfoldable pub run : List (Call R) → QSwitch R → QSwitch R
  unfolding apply
  run [] s = s
  run (c ∷ cs) s = run cs (apply c s)

  apply-IsConsistent : (c : Call R) {s : QSwitch R} → IsConsistent s → IsConsistent (apply c s)
  unfolding apply
  apply-IsConsistent (checked b now) v = ground arith
  apply-IsConsistent (triggered_manually text now) v = ground arith
  apply-IsConsistent was_reset v = ground arith

  -- After any sequence of calls from a consistent state the flag, the asyncio event and the stored
  -- event agree.
  run-IsConsistent : (cs : List (Call R)) {s : QSwitch R} → IsConsistent s → IsConsistent (run cs s)
  unfolding run
  run-IsConsistent [] v = v
  run-IsConsistent (c ∷ cs) v = run-IsConsistent cs (apply-IsConsistent c v)

  -- `check` tells the bot to halt exactly if the switch is triggered afterwards; it lets the bot go
  -- on only from an untriggered state that it does not change, with both balances at their
  -- thresholds or above.
  check_verdict :
      (b : Balance R) (now : R) (s : QSwitch R)
      → let (halt, s') = check b now s in
        (halt ≡ s'.triggered)
        × (halt ≡ false
            → (s' ≡ s)
              × (lt b.usd config.min_balance_usd ≡ false)
              × (lt b.token config.min_balance_token ≡ false))
  unfolding check
  check_verdict b now s = ground arith

  apply_latched :
      (c : Call R) (s : QSwitch R) → s.triggered ≡ true → resets (c ∷ []) ≡ 0 → apply c s ≡ s
  unfolding apply
  apply_latched (checked b now) s t h = ground arith
  apply_latched (triggered_manually text now) s t h = ground arith
  apply_latched was_reset s t h = absurd (omega arith)

  -- Once triggered, no sequence of calls without a reset changes anything: the bot stays halted, the
  -- first event stays recorded, and no second alert is sent.
  pub run_latched :
      (cs : List (Call R)) (s : QSwitch R) → s.triggered ≡ true → resets cs ≡ 0 → run cs s ≡ s
  unfolding run
  run_latched [] s t h = ground arith
  run_latched (checked b now ∷ cs) s t h =
      ground (arith, apply_latched (checked b now) s t, run_latched cs s t h)
  run_latched (triggered_manually text now ∷ cs) s t h =
      ground (arith, apply_latched (triggered_manually text now) s t, run_latched cs s t h)
  run_latched (was_reset ∷ cs) s t h = absurd (omega arith)

  apply-alerts :
      (c : Call R) (s : QSwitch R)
      → length (apply c s).alerts + armed (apply c s) ≤ length s.alerts + armed s + resets (c ∷ [])
  unfolding apply
  apply-alerts (checked b now) s = ground arith
  apply-alerts (triggered_manually text now) s = ground arith
  apply-alerts was_reset s = ground arith

  run-alerts :
      (cs : List (Call R)) (s : QSwitch R)
      → length (run cs s).alerts + armed (run cs s) ≤ length s.alerts + armed s + resets cs
  unfolding run
  run-alerts [] s = omega arith
  run-alerts (checked b now ∷ cs) s =
      let c : Call R = checked b now in omega (arith, apply-alerts c s, run-alerts cs (apply c s))
  run-alerts (triggered_manually text now ∷ cs) s =
      let c : Call R = triggered_manually text now in
      omega (arith, apply-alerts c s, run-alerts cs (apply c s))
  run-alerts (was_reset ∷ cs) s =
      omega (arith, apply-alerts was_reset s, run-alerts cs (apply was_reset s))

  -- From the initial state a sequence of calls sends at most one alert more than it has resets.
  alerts-le-resets : (cs : List (Call R)) → length (run cs initial).alerts ≤ resets cs + 1
  alerts-le-resets cs = omega (arith, run-alerts cs initial)
