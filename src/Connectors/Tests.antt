-- ===== src/Connectors/Tests.antt =====
-- The connectors on concrete answers.
use mmp_meridian.Prelude.{
  ℕ, ◌+◌, ◌≡◌, ◌≤◌, ◌<◌, ◌^◌, refl, true, false, none, some, [], ◌∷◌, if◌then◌else◌, ltb, ◌==◌,
  arith,
}
use mmp_meridian.Prelude.Int.{ℤ}
use mmp_meridian.Float.Fixed.{fixed, fixed-IsOrdered}
use mmp_meridian.Samples.{micro}
use mmp_meridian.Exchange.{buy}
use mmp_meridian.Connectors.Monad.{
  Reply, answered, failed, retryable, not_supported, order_not_found, broken, RawOrder, Api,
  Adapter, fetch_ticker, once,
}
use mmp_meridian.Connectors.Ccxt
use mmp_meridian.Connectors.Ccxt.{Account, retry}
use mmp_meridian.Connectors.Retries.{Retried, retry_lem, total}
use mmp_meridian.Connectors.Cancelling.{IsCleared, cancel_all_orders_lem}
use mmp_meridian.Connectors.Streams.{
  RawBook, Watch, came, network_error, other_error, book_update, connect_ws, WsConnector, started,
  run, step, taken, latest, handle_all,
}
use mmp_meridian.Connectors.Books.{IsSingle, IsBook, run-latest, handle_all-IsSingle}
use mmp_meridian.Connectors.Backoff.{failures, run-failures}

-- Two timeouts, then an answer.
abbrev replies : ℕ → Reply ℕ
replies n = if ltb n 2 then failed retryable else answered n

abbrev adapter : Adapter ℤ
adapter = record { connected = true; count = 0; calls = []; slept = [] }

retry_lem_example :
    let (r, a') = retry (once fetch_ticker replies) adapter in
    Retried fetch_ticker replies 0 3 adapter r a'
retry_lem_example = retry_lem fetch_ticker replies adapter

abbrev listed : RawOrder ℤ
listed = record {
  id = "o1";
  side = buy;
  price = some (micro 25_000);
  average = none;
  amount = some (micro 100_000_000);
  filled = none;
  fee_cost = none;
  fee_currency = none;
  status = none;
  timestamp = none;
}

-- An exchange without `cancel_all_orders`, which does not know one of the orders any more.
abbrev api : Api ℤ
api = record {
  time = λ n. micro 1_000_000;
  truncate = λ x. x;
  load_markets = λ n. answered tt;
  close = λ n. failed broken;
  fetch_ticker = λ n. failed retryable;
  fetch_ohlcv = λ n. answered [];
  fetch_balance = λ n. answered [];
  create_limit_order = λ n side price amount. answered listed;
  cancel_order = λ n id. if n == 3 then failed order_not_found else answered tt;
  cancel_all_orders = λ n. failed not_supported;
  fetch_open_orders = λ n. answered (listed ∷ record listed { id = "o2" } ∷ []);
  fetch_my_trades = λ n since. failed not_supported;
}

abbrev account : Account
account = record {
  exchange_name = "kucoin";
  symbol = "ALKIMI/USDT";
  token_currency = "ALKIMI";
  quote_currency = "USDT";
}

cancel_all_orders_lem_example : IsCleared api account (Ccxt.cancel_all_orders api account adapter).1
unfolding Ccxt.cancel_all_orders Ccxt.parse_order
cancel_all_orders_lem_example = cancel_all_orders_lem api account adapter refl

-- A loop whose consumer has left an item in the queue.
abbrev behind : Watch ℕ
behind = started (record { maxsize = 1; items = 7 ∷ [] })

run-latest_example :
    (latest (run (network_error ∷ []) (step (came 8) behind)) ≡ some 8)
    × (latest (run [] (step taken (run (network_error ∷ []) (step (came 8) behind)))) ≡ none)
run-latest_example =
    run-latest 8 (network_error ∷ []) [] behind refl (refl, omega arith, (tt, tt)) (tt, tt) tt

run-failures_example :
    let w' = run (failures 6) behind in
    (6 ≤ 5 → (w'.running ≡ true) × (total w'.slept + 1 ≡ total behind.slept + 2 ^ 6))
    × (5 < 6 → w'.running ≡ false)
run-failures_example = run-failures 6 behind refl refl

abbrev silent : WsConnector ℤ
silent = record {
  books = started (record { maxsize = 1; items = [] });
  tickers = started (record { maxsize = 1; items = [] });
  ws_connected = true;
}

-- Asks in the wrong order, one of them empty.
abbrev raw : RawBook ℤ
raw = record {
  bids = (micro 24_000, micro 5_000_000) ∷ [];
  asks =
      (micro 27_000, micro 3_000_000)
      ∷ (micro 25_000, micro 0)
      ∷ (micro 26_000, micro 1_000_000)
      ∷ [];
  timestamp = none;
}

handle_all-IsSingle_example :
    IsSingle IsBook
      (handle_all "kucoin"
        (book_update (came raw) (micro 1_000_000)
          ∷ connect_ws
          ∷ book_update other_error (micro 2_000_000)
          ∷ [])
        silent).books.queue
handle_all-IsSingle_example =
    handle_all-IsSingle fixed-IsOrdered "kucoin"
      (book_update (came raw) (micro 1_000_000)
        ∷ connect_ws
        ∷ book_update other_error (micro 2_000_000)
        ∷ [])
      silent (refl, omega arith, tt)
