-- ===== src/Connectors/Cpp.antt =====
-- exchange/cpp_connector.py: `_CppBaseWrapper`, whose methods hand each call to a compiled object in a
-- thread. The structs of that object have the fields of the data classes, so that converting one into
-- the other copies the fields and is left out.
use mmp_meridian.Prelude.{ℕ, true, false, Option, none, some, List}
use mmp_meridian.Float.{Float, unity, neg}
use mmp_meridian.Exchange.{Fill}
use mmp_meridian.Connectors.Monad.{Reply, Call, C, pure, once, handle, throw, modify, sleep, ◌>>◌}

-- What the compiled object answers to the calls that are modelled.
pub record Compiled (R : Type 0) : Type 0 where
  pub connect : ℕ → Reply (Unit {0})
  pub disconnect : ℕ → Reply (Unit {0})
  pub fetch_fills : ℕ → R → Reply (List (Fill R))

module _ {R : Type 0} ⦃f : Float R⦄ (cpp : Compiled R) where
  unfoldable pub connect : C R (Unit {0})
  connect = do
    handle (once Call.load_markets cpp.connect)
        λ e. do modify λ a. record a { connected = false }; throw e
    modify λ a. record a { connected = true }

  unfoldable pub disconnect : C R (Unit {0})
  disconnect = do
    handle (once Call.close cpp.disconnect) λ e. pure tt
    modify λ a. record a { connected = false }

  unfoldable pub reconnect : C R (Unit {0})
  unfolding connect disconnect
  reconnect = do disconnect; sleep 2; connect

  -- -1.0 stands for `None`.
  abbrev pub since_of : Option R → R
  since_of none = neg unity
  since_of (some ts) = ts

  unfoldable pub fetch_fills : Option R → C R (List (Fill R))
  fetch_fills since_ts =
      once (Call.fetch_my_trades (some (since_of since_ts)))
        (λ n. cpp.fetch_fills n (since_of since_ts))
