-- ===== src/Connectors/Lifecycle.antt =====
-- What `is_connected` says after a reconnection.
use mmp_meridian.Prelude.{◌+◌, ◌∷◌, ◌≡◌, ◌≢◌, refl, true, false, arith}
use mmp_meridian.Float.{Float}
use mmp_meridian.Connectors.Monad.{Reply, answered, Api, Call, Adapter, once}
use mmp_meridian.Connectors.Ccxt
use mmp_meridian.Connectors.Ccxt.{Account, retry}
use mmp_meridian.Connectors.Retries.{retry_keeps}
use mmp_meridian.Connectors.Cpp
use mmp_meridian.Connectors.Cpp.{Compiled}

module _ {R : Type 0} ⦃f : Float R⦄ where
  -- The flag tells how the call ended.
  abbrev pub IsTold : Reply (Unit {0}) × Adapter R → Type 0
  IsTold r =
      (r.0 ≡ answered tt → r.1.connected ≡ true) × (r.0 ≢ answered tt → r.1.connected ≡ false)

  connect-IsTold :
      (api : Api R) (account : Account) (a : Adapter R)
      → a.connected ≡ false
      → IsTold (Ccxt.connect api account a)
  unfolding Ccxt.connect
  connect-IsTold api account a h = ground (arith, kept)
    where
      kept : (retry (once Call.load_markets api.load_markets) a).1.connected ≡ false
      kept =
          retry_keeps Call.load_markets api.load_markets (λ a. a.connected ≡ false) (λ a h. h)
            (λ n a h. h) a h

  -- However the calls end: a reconnection that returns leaves the connector connected, one that raises
  -- leaves it not connected, with ccxt and with the compiled object; and a disconnection leaves it not
  -- connected and returns.
  reconnect-IsTold :
      (api : Api R) (account : Account) (cpp : Compiled R) (a : Adapter R)
      → IsTold (Ccxt.reconnect api account a)
        × IsTold (Cpp.reconnect cpp a)
        × (let (r, a') = Ccxt.disconnect api account a in
            (r ≡ answered tt) × (a'.connected ≡ false))
        × (let (r, a') = Cpp.disconnect cpp a in (r ≡ answered tt) × (a'.connected ≡ false))
  unfolding Ccxt.reconnect Ccxt.disconnect Cpp.reconnect Cpp.connect Cpp.disconnect
  reconnect-IsTold api account cpp a =
      let closed : Adapter R = record {
        connected = false;
        count = a.count + 1;
        calls = Call.close ∷ a.calls;
        slept = 2 ∷ a.slept;
      } in
      let told = connect-IsTold api account closed refl in
      (ground (arith, told), ground arith, ground arith, ground arith)
