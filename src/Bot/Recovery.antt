-- ===== src/Bot/Recovery.antt =====
-- What the bot does when something fails.
use mmp_meridian.Prelude.{
  ℕ, ◌+◌, ◌≡◌, ◌⊎◌, refl, Bool, Bool-cases, true, false, some, String, List, [], ◌∷◌, inl, inr,
  arith,
}
use mmp_meridian.Prelude.Run.{ok, raised, for_each}
use mmp_meridian.Prelude.Dict.{keys}
use mmp_meridian.Float.{Float}
use mmp_meridian.Exchange.{canceled}
use mmp_meridian.Safety.QSwitch.{trigger_manually}
use mmp_meridian.Orders.Monad.{Outside, Manager, acquire, cancel_all_orders}
use mmp_meridian.Orders.Manager.{Settings, cancel_all, update_order_status}
use mmp_meridian.Regime.Master.{GlobalState}
use mmp_meridian.Bot.State.{
  Exception, timeout_error, cancelled_error, other_error, Answers, Parts, Bot,
}
use mmp_meridian.Bot.Tick.{tick}
use mmp_meridian.Bot.Loop.{recover, try_reconnect, pull_switch, caught, run_turn, emergency_stop}
use mmp_meridian.Bot.Ended.{IsOver, ended-IsOver}

module _ {R : Type 0} ⦃f : Float R⦄ (out : Answers R) (p : Parts R) where
  -- The loop tests `running` again, and nothing else of the two has changed.
  abbrev GoesOn : Bot R → Bot R → Type 0
  GoesOn c b' = (b'.running ≡ c.running) × (b'.in_loop ≡ c.running) × (b'.q_switch ≡ c.q_switch)

  -- What becomes of a bot that an exception found at `c`, by the class of the exception, whether the
  -- connector says that it is connected, and whether the reconnection succeeds.
  abbrev pub Recovered : Exception → Bool → Bool → Bot R → Bot R → Type 0
  Recovered timeout_error connected reconnects c b' = GoesOn c b' × (b'.calls ≡ c.calls)
  Recovered cancelled_error connected reconnects c b' = IsOver out p b' × (b'.calls ≡ c.calls)
  Recovered other_error true reconnects c b' = GoesOn c b' × (b'.calls ≡ c.calls)
  Recovered other_error false true c b' = GoesOn c b'
  Recovered other_error false false c b' = IsOver out p b' × (b'.q_switch.triggered ≡ true)

  -- How it ends, before what may happen later is looked at.
  abbrev Ended : Exception → Bool → Bool → Bot R → Bot R → Type 0
  Ended timeout_error connected reconnects c b' = GoesOn c b' × (b'.calls ≡ c.calls)
  Ended cancelled_error connected reconnects c b' = (b'.in_loop ≡ false) × (b'.calls ≡ c.calls)
  Ended other_error true reconnects c b' = GoesOn c b' × (b'.calls ≡ c.calls)
  Ended other_error false true c b' = GoesOn c b'
  Ended other_error false false c b' = (b'.in_loop ≡ false) × (b'.q_switch.triggered ≡ true)

  Ended-Recovered :
      (e : Exception) (i r : Bool) (c b' : Bot R) → Ended e i r c b' → Recovered e i r c b'
  Ended-Recovered timeout_error i r c b' h = h
  Ended-Recovered cancelled_error i r c b' (h, k) = (ended-IsOver out p b' h, k)
  Ended-Recovered other_error true r c b' h = h
  Ended-Recovered other_error false true c b' h = h
  Ended-Recovered other_error false false c b' (h, k) = (ended-IsOver out p b' h, k)

  caught-Ended :
      (e : Exception) (c : Bot R)
      → let (r, b') = caught out p e c in
        (r ≡ ok tt)
        × (b'.order_manager ≡ c.order_manager)
        × Ended e (out.is_connected c.count) (out.reconnect (c.count + 1)) c b'
  unfolding caught recover try_reconnect pull_switch trigger_manually
  caught-Ended timeout_error c = ground arith
  caught-Ended cancelled_error c = ground arith
  caught-Ended other_error c = elim (Bool-cases (out.is_connected c.count)) [
    | inl i ↦ ground (arith, i)
    | inr i ↦ elim (Bool-cases (out.reconnect (c.count + 1))) [
      | inl r ↦ ground (arith, i, r)
      | inr r ↦ ground (arith, i, r)
    ]
  ]

  -- An exception that comes out of a tick does not leave `_run_loop`, and the open orders are those
  -- that the tick left. A timeout only has `running` tested again, and so has any other exception if the
  -- connector says that it is connected: nothing is called, the reconnection included, and the
  -- Q-Switch is as it was. After a reconnection the loop goes on in the same way. After a cancellation,
  -- or if the reconnection raises, which triggers the Q-Switch, the bot opens nothing any more,
  -- whatever events follow, resumptions by the API included.
  pub run_turn-Recovered :
      (s : GlobalState R) (b : Bot R)
      → (tick out p s b).0 ≡ raised
      → let c = (tick out p s b).1 in
        let (r, b') = run_turn out p (some s) b in
        (r ≡ ok tt)
        × (b'.order_manager ≡ c.order_manager)
        × Recovered
            (out.exception c.count)
            (out.is_connected (c.count + 1))
            (out.reconnect (c.count + 1 + 1))
            c
            b'
  unfolding run_turn
  run_turn-Recovered s b h =
      let c = (tick out p s b).1 in
      let read = record c { count = c.count + 1 } in
      let (r, kept, ended) = caught-Ended (out.exception c.count) read in
      ground (
        arith,
        h,
        r,
        kept,
        Ended-Recovered (out.exception c.count) (out.is_connected (c.count + 1))
            (out.reconnect (c.count + 1 + 1)) read (caught out p (out.exception c.count) read).1
            ended,
      )

-- The exchange and the database do as the order manager asks when it cancels everything.
abbrev pub Cancels : {R : Type 0} → Outside R → Settings R → Type 0
Cancels out cfg =
    ((n : ℕ) → out.db n ≡ true)
    × ((cfg.dry_run ≡ true) ⊎ ((n : ℕ) → out.cancel_all_orders n ≡ true))

module _ {R : Type 0} ⦃f : Float R⦄ (out : Outside R) (cfg : Settings R) where
  mark_canceled-ok :
      (h : (n : ℕ) → out.db n ≡ true) (ids : List String) (m : Manager R)
      → (for_each (λ id. update_order_status out cfg id canceled) ids m).0 ≡ ok tt
  unfolding update_order_status
  mark_canceled-ok h [] m = refl
  mark_canceled-ok h (id ∷ ids) m =
      ground
        (arith, h m.count, mark_canceled-ok h ids (update_order_status out cfg id canceled m).1)

  pub cancel_all-clears :
      (m : Manager R)
      → Cancels out cfg
      → let (r, m') = cancel_all out cfg m in (r ≡ ok tt) × (m'.open_orders ≡ [])
  unfolding cancel_all
  cancel_all-clears m (h, k) =
      let told = record m {
        count = m.count + 1 + 1;
        calls = cancel_all_orders ∷ acquire ∷ m.calls;
      } in
      let k' : (cfg.dry_run ≡ true) ⊎ (out.cancel_all_orders (m.count + 1) ≡ true) = elim k [
        | inl e ↦ inl e
        | inr g ↦ inr (g (m.count + 1))
      ] in
      ground (
        arith,
        mark_canceled-ok h (keys m.open_orders) m,
        mark_canceled-ok h (keys m.open_orders) told,
        k',
      )

module _ {R : Type 0} ⦃f : Float R⦄ (out : Answers R) (p : Parts R) where
  -- If the exchange and the database accept the cancellation, an emergency stop leaves the bot with
  -- no open order, its loop told to end and its Q-Switch triggered, whether or not the dashboard
  -- takes the event.
  pub emergency_stop_clears :
      (b : Bot R)
      → Cancels out.orders p.orders
      → let b' = (emergency_stop out p b).1 in
        (b'.order_manager.open_orders ≡ []) × (b'.running ≡ false) × (b'.q_switch.triggered ≡ true)
  unfolding emergency_stop pull_switch trigger_manually
  emergency_stop_clears b h =
      ground (arith, cancel_all-clears out.orders p.orders b.order_manager h)
