-- ===== src/Connectors/Ccxt.antt =====
-- exchange/ccxt_connector.py: `_retry` and the methods of `CCXTConnector`.
use mmp_meridian.Prelude.{
  ℕ, zero, suc, ◌^◌, true, false, Option, none, some, String, List, [], ◌∷◌, map, if◌then◌else◌,
}
use mmp_meridian.Prelude.Dict.{lookup}
use mmp_meridian.Float.{Float, nought}
use mmp_meridian.Exchange.{Balance, Candle, Fill, Order, Side, Status, Ticker, opened}
use mmp_meridian.Inventory.{or_else}
use mmp_meridian.Connectors.Monad.{
  Failure, retryable, order_not_found, not_supported, broken, answered, failed, RawTicker, RawOrder,
  RawTrade, Api, Call, C, pure, once, read, handle, throw, modify, sleep, ◌>>=◌, ◌>>◌,
}

-- The loop of `_retry` from an attempt on, with a number of attempts left after it.
unfoldable pub attempts : {R A : Type 0} → ℕ → ℕ → C R A → C R A
attempts attempt zero m a = m a
attempts attempt (suc left) m a =
    let (r, a') = m a in
    elim r [
      | answered x ↦ (answered x, a')
      | failed e ↦ elim e [
        | retryable ↦ attempts (suc attempt) left m (sleep (2 ^ attempt) a').1
        | refusal ↦ (failed refusal, a')
      ]
    ]

abbrev pub max_retries : ℕ
max_retries = 3

unfoldable pub retry : {R A : Type 0} → C R A → C R A
unfolding attempts
retry m = attempts 0 max_retries m

-- What the connector was made with.
pub record Account : Type 0 where
  pub exchange_name : String
  pub symbol : String
  pub token_currency : String
  pub quote_currency : String

abbrev text_or : Option String → String → String
text_or none t = t
text_or (some s) t = s

abbrev status_or : Option Status → Status
status_or none = opened
status_or (some s) = s

module _ {R : Type 0} ⦃f : Float R⦄ (api : Api R) (account : Account) where
  open f use {add, mul, div, eq, decimal}

  -- `raw["timestamp"] / 1000.0 if raw.get("timestamp") else time.time()`
  abbrev seconds : Option R → R → R
  seconds none now = now
  seconds (some ms) now = if eq ms nought then now else div ms (decimal 1000 0)

  unfoldable pub connect : C R (Unit {0})
  unfolding retry
  connect = do
    retry (once Call.load_markets api.load_markets)
    modify λ a. record a { connected = true }

  -- `close`, whose exceptions are only logged.
  abbrev close_quietly : C R (Unit {0})
  close_quietly = handle (once Call.close api.close) λ e. pure tt

  unfoldable pub disconnect : C R (Unit {0})
  disconnect = do close_quietly; modify λ a. record a { connected = false }

  unfoldable pub reconnect : C R (Unit {0})
  unfolding connect
  reconnect = do modify λ a. record a { connected = false }; close_quietly; sleep 2; connect

  -- `float(None)` raises a TypeError.
  abbrev ticker_of : RawTicker R → Option R → R → C R (Ticker R)
  ticker_of raw none now = throw broken
  ticker_of raw (some last) now =
      let bid = or_else raw.bid last in
      let ask = or_else raw.ask last in
      pure (record {
        bid = bid;
        ask = ask;
        mid = div (add bid ask) (decimal 2 0);
        last = last;
        timestamp = seconds raw.timestamp now;
      })

  unfoldable pub fetch_ticker : C R (Ticker R)
  unfolding retry
  fetch_ticker = do
    raw ← retry (once Call.fetch_ticker api.fetch_ticker)
    now ← read api.time
    ticker_of raw raw.last now

  abbrev candle_of : R × R × R × R × R × R → Candle R
  candle_of (ts, o, h, l, c, v) = record {
    timestamp = div ts (decimal 1000 0);
    open_price = o;
    high = h;
    low = l;
    close = c;
    volume = v;
  }

  unfoldable fetch_candles : C R (List (Candle R))
  unfolding retry
  fetch_candles = do raw ← retry (once Call.fetch_ohlcv api.fetch_ohlcv); pure (map candle_of raw)

  -- `float(free.get(currency, 0) or 0)`
  abbrev free_of : Option (Option R) → R
  free_of none = nought
  free_of (some amount) = or_else amount nought

  unfoldable pub fetch_balance : C R (Balance R)
  unfolding retry
  fetch_balance = do
    free ← retry (once Call.fetch_balance api.fetch_balance)
    pure (record {
      usd = free_of (lookup account.quote_currency free);
      token = free_of (lookup account.token_currency free);
      quote_currency = account.quote_currency;
    })

  unfoldable pub parse_order : R → RawOrder R → Order R
  parse_order now raw =
      let price = or_else raw.price (or_else raw.average nought) in
      let amount = or_else raw.amount nought in
      record {
        id = raw.id;
        exchange = account.exchange_name;
        symbol = account.symbol;
        side = raw.side;
        price = price;
        amount = amount;
        amount_usd = mul price amount;
        status = status_or raw.status;
        timestamp = seconds raw.timestamp now;
        filled_amount = or_else raw.filled nought;
        filled_price = or_else raw.average nought;
        fee = or_else raw.fee_cost nought;
        fee_currency = text_or raw.fee_currency "";
      }

  unfoldable parse_fill : R → RawTrade R → Fill R
  parse_fill now raw = record {
    id = raw.id;
    order_id = text_or raw.order "";
    exchange = account.exchange_name;
    symbol = account.symbol;
    side = raw.side;
    filled_price = or_else raw.price nought;
    filled_amount = or_else raw.amount nought;
    fee = or_else raw.fee_cost nought;
    fee_currency = text_or raw.fee_currency "";
    timestamp = seconds raw.timestamp now;
    pnl_usd = nought;
  }

  unfoldable pub create_limit_order : Side → R → R → C R (Order R)
  unfolding retry parse_order
  create_limit_order side price amount = do
    raw ← retry (
        once (Call.create_limit_order side price amount)
          (λ n. api.create_limit_order n side price amount))
    now ← read api.time
    pure (parse_order now raw)

  abbrev pub unless_not_found : Failure → C R (Unit {0})
  unless_not_found order_not_found = pure tt
  unless_not_found e = throw e

  unfoldable pub cancel_order : String → C R (Unit {0})
  unfolding retry
  cancel_order id =
      handle (retry (once (Call.cancel_order id) (λ n. api.cancel_order n id))) unless_not_found

  -- One reading of the clock stands for those of the orders without a time of their own.
  unfoldable pub fetch_open_orders : C R (List (Order R))
  unfolding retry parse_order
  fetch_open_orders = do
    raw ← retry (once Call.fetch_open_orders api.fetch_open_orders)
    now ← read api.time
    pure (map (parse_order now) raw)

  unfoldable pub cancel_each : List (Order R) → C R (Unit {0})
  unfolding cancel_order
  cancel_each [] = pure tt
  cancel_each (o ∷ orders) = do cancel_order o.id; cancel_each orders

  abbrev pub one_by_one : Failure → C R (Unit {0})
  one_by_one not_supported = do open_orders ← fetch_open_orders; cancel_each open_orders
  one_by_one e = throw e

  unfoldable pub cancel_all_orders : C R (Unit {0})
  unfolding retry fetch_open_orders cancel_each
  cancel_all_orders = handle (retry (once Call.cancel_all_orders api.cancel_all_orders)) one_by_one

  abbrev no_trades : Failure → C R (List (RawTrade R))
  no_trades not_supported = pure []
  no_trades e = throw e

  abbrev since_ms : Option R → Option R
  since_ms none = none
  since_ms (some ts) = some (api.truncate (mul ts (decimal 1000 0)))

  unfoldable pub fetch_fills : Option R → C R (List (Fill R))
  unfolding retry parse_fill
  fetch_fills since_ts = do
    raw ←
        handle
          (retry (
            once (Call.fetch_my_trades (since_ms since_ts))
              (λ n. api.fetch_my_trades n (since_ms since_ts))))
          no_trades
    now ← read api.time
    pure (map (parse_fill now) raw)
