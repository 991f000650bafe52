-- ===== src/Bot/Ended.antt =====
-- A bot whose loop has ended opens nothing.
use mmp_meridian.Prelude.{◌≡◌, false, List, [], ◌∷◌, arith}
use mmp_meridian.Float.{Float}
use mmp_meridian.Bot.State.{Answers, Parts, Bot}
use mmp_meridian.Bot.Loop.{
  Event, turned, task_cancelled, heartbeat_failed, stopped, regime_sent, paused, resumed,
  emergency_stop, stop, pull_switch, handle, run,
}
use mmp_meridian.Bot.Halted.{OpensNothing, cancel_all-OpensNothing}

-- The loop is over, and nothing was opened since `b`.
record StaysEnded {R : Type 0} (b b' : Bot R) : Type 0 where
  pub over : b'.in_loop ≡ false
  pub quiet : OpensNothing b.order_manager b'.order_manager

module _ {R : Type 0} ⦃f : Float R⦄ (out : Answers R) (p : Parts R) where
  emergency_stop_ends : (b : Bot R) → b.in_loop ≡ false → StaysEnded b (emergency_stop out p b).1
  unfolding emergency_stop pull_switch
  emergency_stop_ends b h =
      ground (arith, h, cancel_all-OpensNothing out.orders p.orders b.order_manager)

  stop_ends : (b : Bot R) → b.in_loop ≡ false → StaysEnded b (stop out p b).1
  unfolding stop
  stop_ends b h = ground (arith, h, cancel_all-OpensNothing out.orders p.orders b.order_manager)

  handle_ended : (e : Event R) (b : Bot R) → b.in_loop ≡ false → StaysEnded b (handle out p e b)
  unfolding handle pull_switch
  handle_ended (turned s) b h = ground arith
  handle_ended task_cancelled b h = ground arith
  handle_ended heartbeat_failed b h = emergency_stop_ends b h
  handle_ended stopped b h = stop_ends b h
  handle_ended (regime_sent rs) b h = ground arith
  handle_ended paused b h = ground arith
  handle_ended resumed b h = ground arith

  run_ended : (es : List (Event R)) (b : Bot R) → b.in_loop ≡ false → StaysEnded b (run out p es b)
  unfolding run
  run_ended [] b h = record { over = h; quiet = ground arith }
  run_ended (e ∷ es) b h =
      let v = handle_ended e b h in
      let w = run_ended es (handle out p e b) v.over in
      record { over = w.over; quiet = ground (arith, v.quiet, w.quiet) }

  -- The bot opens nothing any more, whatever happens to it.
  abbrev pub IsOver : Bot R → Type 0
  IsOver b = (es : List (Event R)) → OpensNothing b.order_manager (run out p es b).order_manager

  -- A loop that is over stays over, resumptions by the API included.
  pub ended-IsOver : (b : Bot R) → b.in_loop ≡ false → IsOver b
  ended-IsOver b h es = (run_ended es b h).quiet
