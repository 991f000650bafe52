-- ===== src/Connectors/Cancelling.antt =====
-- What `cancel_all_orders` has asked of the exchange when it returns.
use mmp_meridian.Prelude.{
  ℕ, ◌+◌, ◌≡◌, refl, sym, Bool, true, false, ◌⊎◌, inl, inr, String, List, [], ◌∷◌, map, any, All,
  str_eq, arith,
}
use mmp_meridian.Prelude.Dict.{str_eq_refl}
use mmp_meridian.Float.{Float}
use mmp_meridian.Connectors.Monad.{
  Reply, answered, failed, Failure, retryable, authentication, order_not_found, not_supported,
  refused, broken, RawOrder, Api, Call, load_markets, close, fetch_ticker, fetch_ohlcv,
  fetch_balance, cancel_all_orders, fetch_open_orders, create_limit_order, cancel_order,
  fetch_my_trades, Adapter, once, read, pure, ◌>>=◌,
}
use mmp_meridian.Connectors.Ccxt
use mmp_meridian.Connectors.Ccxt.{Account, retry, cancel_each, unless_not_found, one_by_one}
use mmp_meridian.Connectors.Retries.{retry_lem, retry_keeps}

module _ {R : Type 0} where
  abbrev pub cancels : String → Call R → Bool
  cancels id (cancel_order id') = str_eq id id'
  cancels id load_markets = false
  cancels id close = false
  cancels id fetch_ticker = false
  cancels id fetch_ohlcv = false
  cancels id fetch_balance = false
  cancels id cancel_all_orders = false
  cancels id fetch_open_orders = false
  cancels id (create_limit_order side price amount) = false
  cancels id (fetch_my_trades since) = false

  -- The exchange was asked to cancel the order.
  abbrev IsAsked : Adapter R → RawOrder R → Type 0
  IsAsked a o = any (cancels o.id) a.calls ≡ true

module _ {R : Type 0} ⦃f : Float R⦄ (api : Api R) (account : Account) where
  abbrev try_cancel : String → Adapter R → Reply (Unit {0}) × Adapter R
  try_cancel id = retry (once (cancel_order id) (λ n. api.cancel_order n id))

  -- The handler of a failed cancellation calls nothing.
  handled :
      (r : Reply (Unit {0}) × Adapter R)
      → (elim r.0 as (λ _. Reply (Unit {0}) × Adapter R) [
        | answered x ↦ (answered x, r.1)
        | failed e ↦ unless_not_found api account e r.1
      ]).1
        ≡ r.1
  handled (answered x, a) = refl
  handled (failed retryable, a) = refl
  handled (failed authentication, a) = refl
  handled (failed order_not_found, a) = refl
  handled (failed not_supported, a) = refl
  handled (failed refused, a) = refl
  handled (failed broken, a) = refl

  cancel_order-IsAsked :
      (o : RawOrder R) (a : Adapter R) → IsAsked (Ccxt.cancel_order api account o.id a).1 o
  unfolding Ccxt.cancel_order
  cancel_order-IsAsked o a = rw (handled (try_cancel o.id a)) (
      retry_keeps (cancel_order o.id) (λ n. api.cancel_order n o.id) (λ a. IsAsked a o)
        (λ a h. ground arith) (λ n a h. h) a (rw (str_eq_refl o.id) refl))

  cancel_order_keeps :
      (id : String) (o : RawOrder R) (a : Adapter R)
      → IsAsked a o
      → IsAsked (Ccxt.cancel_order api account id a).1 o
  unfolding Ccxt.cancel_order
  cancel_order_keeps id o a h = rw (handled (try_cancel id a)) (
      retry_keeps (cancel_order id) (λ n. api.cancel_order n id) (λ a. IsAsked a o)
        (λ a h. ground arith) (λ n a h. h) a (ground arith))

  cancel_each_keeps :
      (now : R) (o : RawOrder R) (os : List (RawOrder R)) (a : Adapter R)
      → IsAsked a o
      → IsAsked (cancel_each api account (map (Ccxt.parse_order api account now) os) a).1 o
  unfolding cancel_each Ccxt.parse_order
  cancel_each_keeps now o [] a h = h
  cancel_each_keeps now o (x ∷ os) a h =
      let (r, a') = Ccxt.cancel_order api account x.id a in
      let kept = cancel_order_keeps x.id o a h in ground (arith, cancel_each_keeps now o os a')

  then_all :
      (r : Reply (Unit {0}) × Adapter R) (k : Adapter R → Reply (Unit {0}) × Adapter R)
      (o : RawOrder R) (os : List (RawOrder R))
      → IsAsked r.1 o
      → ((a : Adapter R) → IsAsked a o → IsAsked (k a).1 o)
      → ((a : Adapter R) → (k a).0 ≡ answered tt → All (IsAsked (k a).1) os)
      → let d = elim r.0 as (λ _. Reply (Unit {0}) × Adapter R) [
        | answered x ↦ k r.1
        | failed e ↦ (failed e, r.1)
      ] in
        d.0 ≡ answered tt → All (IsAsked d.1) (o ∷ os)
  then_all (answered x, a) k o os h keeps all e = (keeps a h, all a e)
  then_all (failed x, a) k o os h keeps all e = absurd (ground arith)

  -- If the loop over the orders returns, it has asked for each.
  cancel_each_lem :
      (now : R) (os : List (RawOrder R)) (a : Adapter R)
      → let (r, a') = cancel_each api account (map (Ccxt.parse_order api account now) os) a in
        r ≡ answered tt → All (IsAsked a') os
  unfolding cancel_each Ccxt.parse_order
  cancel_each_lem now [] a = λ h. tt
  cancel_each_lem now (x ∷ os) a =
      then_all (Ccxt.cancel_order api account x.id a)
        (cancel_each api account (map (Ccxt.parse_order api account now) os)) x os
        (cancel_order-IsAsked x a) (λ a' h. cancel_each_keeps now x os a' h)
        (cancel_each_lem now os)

  -- What the exchange has answered, and was asked.
  abbrev pub IsCleared : Adapter R → Type 0
  IsCleared a =
      ((n : ℕ) × (api.cancel_all_orders n ≡ answered tt))
      ⊎ ((n : ℕ) × (os : List (RawOrder R)) × (api.fetch_open_orders n ≡ answered os)
          × All (IsAsked a) os)

  listed :
      (r : Reply (List (RawOrder R)) × Adapter R) (n : ℕ)
      → r.0 ≡ api.fetch_open_orders n
      → let d =
          (((λ _. r) >>= λ raw. do
            now ← read api.time
            pure (map (Ccxt.parse_order api account now) raw))
              >>= cancel_each api account)
            r.1 in
        d.0 ≡ answered tt → IsCleared d.1
  listed (answered os, a) n e h =
      inr (n, os, sym e, cancel_each_lem (api.time a.count) os (record a { count = a.count + 1 }) h)
  listed (failed x, a) n e h = absurd (ground arith)

  one_by_one_lem :
      (e : Failure) (a : Adapter R)
      → let (r, a') = one_by_one api account e a in r ≡ answered tt → IsCleared a'
  unfolding Ccxt.fetch_open_orders
  one_by_one_lem not_supported a h =
      let v = retry_lem fetch_open_orders api.fetch_open_orders a in
      listed (retry (once fetch_open_orders api.fetch_open_orders) a) (a.count + v.made) v.result h
  one_by_one_lem retryable a h = absurd (ground arith)
  one_by_one_lem authentication a h = absurd (ground arith)
  one_by_one_lem order_not_found a h = absurd (ground arith)
  one_by_one_lem refused a h = absurd (ground arith)
  one_by_one_lem broken a h = absurd (ground arith)

  handled_all :
      (r : Reply (Unit {0}) × Adapter R) (n : ℕ)
      → r.0 ≡ api.cancel_all_orders n
      → let d = elim r.0 as (λ _. Reply (Unit {0}) × Adapter R) [
        | answered x ↦ (answered x, r.1)
        | failed e ↦ one_by_one api account e r.1
      ] in
        d.0 ≡ answered tt → IsCleared d.1
  handled_all (answered tt, a) n e h = inl (n, sym e)
  handled_all (failed x, a) n e h = one_by_one_lem x a h

  -- A call of `cancel_all_orders` that returns either has the answer of the exchange that all orders are
  -- cancelled, or has a list of the open orders from the exchange and has asked it to cancel each of them.
  pub cancel_all_orders_lem :
      (a : Adapter R)
      → let (r, a') = Ccxt.cancel_all_orders api account a in r ≡ answered tt → IsCleared a'
  unfolding Ccxt.cancel_all_orders
  cancel_all_orders_lem a =
      let v = retry_lem cancel_all_orders api.cancel_all_orders a in
      handled_all (retry (once cancel_all_orders api.cancel_all_orders) a) (a.count + v.made)
        v.result
