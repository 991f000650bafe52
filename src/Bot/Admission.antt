-- ===== src/Bot/Admission.antt =====
-- When a tick may quote.
use mmp_meridian.Prelude.{◌≡◌, Bool, true, false, Option, none, some, arith, if◌then◌else◌}
use mmp_meridian.Prelude.Run.{ok, Returns, Returns-bind}
use mmp_meridian.Float.{Float}
use mmp_meridian.Exchange.{Balance}
use mmp_meridian.Safety.QSwitch.{check}
use mmp_meridian.Regime.Parameters.{MmParameters}
use mmp_meridian.Regime.Master.{GlobalState}
use mmp_meridian.Bot.State.{Answers, Parts, Bot}
use mmp_meridian.Bot.Regimes.{drain_regime_queue, resolve_mm_params}
use mmp_meridian.Bot.Tick.{get_balance, refreshed, fetch_balance, is_safe, if_some, admit}
use mmp_meridian.Bot.Frame.{Same}

module _ {R : Type 0} ⦃f : Float R⦄ (out : Answers R) (p : Parts R) where
  open f use {lt}

  get_balance-Returns :
      (b : Bot R) → Returns (λ found b'. Same b b' × (b'.balance ≡ found)) (get_balance out p b)
  unfolding get_balance refreshed fetch_balance
  get_balance-Returns b = ground arith

  abbrev Verdict : Balance R → Bot R → Bool → Bot R → Type 0
  Verdict balance b safe b' =
      (b'.order_manager ≡ b.order_manager)
      × (b.q_switch.triggered ≡ true → (safe ≡ false) × (b'.q_switch ≡ b.q_switch))
      × (safe ≡ true
          → (b'.q_switch ≡ b.q_switch)
            × (b'.circuit_breaker.tripped ≡ false)
            × (lt balance.usd p.safety.min_balance_usd ≡ false)
            × (lt balance.token p.safety.min_balance_token ≡ false))

  is_safe-Returns :
      (s : GlobalState R) (balance : Balance R) (b : Bot R)
      → Returns (Verdict balance b) (is_safe out p s balance b)
  unfolding is_safe check
  is_safe-Returns s balance b = ground arith

  -- What `admit` promises of the bot that it leaves, when it admits `found`.
  abbrev pub Admits : GlobalState R → Bot R → Option (MmParameters R × Balance R) → Bot R → Type 0
  Admits s b found b' =
      (b'.order_manager ≡ b.order_manager)
      × (b.q_switch.triggered ≡ true → (found ≡ none) × (b'.q_switch ≡ b.q_switch))
      × ((mm : MmParameters R) (balance : Balance R)
          → found ≡ some (mm, balance)
          → (mm ≡ resolve_mm_params s (drain_regime_queue b))
            × (b'.q_switch.triggered ≡ false)
            × (b'.circuit_breaker.tripped ≡ false)
            × (lt balance.usd p.safety.min_balance_usd ≡ false)
            × (lt balance.token p.safety.min_balance_token ≡ false))

  abbrev noted : GlobalState R → Bot R → Bot R
  noted s b = drain_regime_queue (record b { last_global_state = some s })

  noted-Same :
      (s : GlobalState R) (b : Bot R)
      → Same b (noted s b)
        × (resolve_mm_params s (noted s b) ≡ resolve_mm_params s (drain_regime_queue b))
  unfolding drain_regime_queue resolve_mm_params
  noted-Same s b = ground arith

  if_some-Returns :
      (s : GlobalState R) (mm : MmParameters R) (found : Option (Balance R)) (b c : Bot R)
      → Same b c
      → mm ≡ resolve_mm_params s (drain_regime_queue b)
      → Returns (Admits s b) (if_some out p s mm found c)
  if_some-Returns s mm none b c h e = ground arith
  if_some-Returns s mm (some balance) b c h e =
      Returns-bind _ (is_safe out p s balance)
        (λ safe. λ d. (ok (if safe then some (mm, balance) else none), d)) c
        (is_safe-Returns s balance c) λ safe d v. ground arith

  pub admit-Admits : (s : GlobalState R) (b : Bot R) → Returns (Admits s b) (admit out p s b)
  unfolding admit
  admit-Admits s b =
      let mm = resolve_mm_params s (noted s b) in
      Returns-bind _ (get_balance out p) (if_some out p s mm) (noted s b)
        (get_balance-Returns (noted s b))
        λ found c (h, e).
          if_some-Returns s mm found b c (ground (arith, h, noted-Same s b))
            (ground (arith, noted-Same s b))
