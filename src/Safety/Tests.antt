-- ===== src/Safety/Tests.antt =====
-- The safety components on concrete inputs.
use mmp_meridian.Prelude.{◌≡◌, refl, true, some, List, [], ◌∷◌}
use mmp_meridian.Prelude.Int.{ℤ}
use mmp_meridian.Float.Fixed.{fixed}
use mmp_meridian.Samples.{micro, safety, balance}
use mmp_meridian.Safety.QSwitch

abbrev fired : QSwitch.QSwitch ℤ
fired = record {
  triggered = true;
  trigger_event = true;
  last_event = some record {
    exchange = "kucoin";
    reason = QSwitch.manual "stop";
    triggered_at = micro 1;
    balance_usd = micro 0;
    balance_token = micro 0;
  };
  alerts = [];
}

abbrev calls : List (QSwitch.Call ℤ)
calls = QSwitch.checked balance (micro 2) ∷ QSwitch.triggered_manually "again" (micro 3) ∷ []

run_latched_example : QSwitch.run safety "kucoin" calls fired ≡ fired
run_latched_example = QSwitch.run_latched safety "kucoin" calls fired refl refl
