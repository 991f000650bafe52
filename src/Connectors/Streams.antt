-- ===== src/Connectors/Streams.antt =====
-- exchange/ccxt_ws_connector.py: the two watch loops of `CCXTWSConnector`, and what the program makes of
-- them. What reaches a loop is a sequence of updates, in the order in which the event loop lets them
-- happen.
use mmp_meridian.Prelude.{
  ℕ, ◌+◌, ◌-◌, ◌^◌, Bool, true, false, not, Option, none, some, String, List, [], ◌∷◌, ◌++◌, keep,
  length, ltb, if◌then◌else◌,
}
use mmp_meridian.Prelude.Sorting.{sorted}
use mmp_meridian.Float.{Float, nought}
use mmp_meridian.Exchange.{Ticker}
use mmp_meridian.Inventory.{or_else}
use mmp_meridian.Regime.Master.{Queue, popleft}
use mmp_meridian.Fills.Simulator.{Level, OrderBook}
use mmp_meridian.Connectors.Monad.{RawTicker}

-- What ccxt answers for a book: `none` and missing lists are empty.
pub record RawBook (R : Type 0) : Type 0 where
  pub bids : List (Level R)
  pub asks : List (Level R)
  pub timestamp : Option R

-- One step of a loop, or of the consumer of its queue. `network_error` stands for the two exceptions
-- that are counted, `other_error` for the others, `cancelled` for the cancellation of the task.
pub data Update (A : Type 0) : Type 0 where
  came : A → Update A
  network_error other_error cancelled : Update A
  taken : Update A

-- A loop with its queue. The seconds slept stand with the latest first.
pub record Watch (A : Type 0) : Type 0 where
  pub running : Bool
  pub retries : ℕ
  pub queue : Queue A
  pub slept : List ℕ

abbrev pub max_retries : ℕ
max_retries = 5

module _ {A : Type 0} where
  -- The task has been made, and has not seen anything.
  abbrev pub started : Queue A → Watch A
  started q = record { running = true; retries = 0; queue = q; slept = [] }

  -- A full queue first loses its oldest item.
  unfoldable pub put_latest : A → Queue A → Queue A
  put_latest x q =
      let room = if ltb (length q.items) q.maxsize then q else popleft q in
      record room { items = room.items ++ x ∷ [] }

  abbrev retried : Watch A → Watch A
  retried w =
      let n = w.retries + 1 in
      if ltb max_retries n
      then record w { retries = n; running = false }
      else record w { retries = n; slept = 2 ^ (n - 1) ∷ w.slept }

  -- What a running loop does.
  unfoldable pub turn : Update A → Watch A → Watch A
  unfolding put_latest
  turn (came x) w = record w { retries = 0; queue = put_latest x w.queue }
  turn network_error w = retried w
  turn other_error w = record w { slept = 1 ∷ w.slept }
  turn cancelled w = record w { running = false }
  turn taken w = record w { queue = popleft w.queue }

  -- A loop that has ended sees nothing more; its queue can still be read.
  unfoldable pub step : Update A → Watch A → Watch A
  unfolding turn
  step taken w = turn taken w
  step (came x) w = if w.running then turn (came x) w else w
  step network_error w = if w.running then turn network_error w else w
  step other_error w = if w.running then turn other_error w else w
  step cancelled w = if w.running then turn cancelled w else w

  unfoldable pub run : List (Update A) → Watch A → Watch A
  unfolding step
  run [] w = w
  run (u ∷ us) w = run us (step u w)

  abbrev pub first : List A → Option A
  first [] = none
  first (x ∷ xs) = some x

  -- `get_nowait`: `none` is the QueueEmpty, which the two watch methods make `None`.
  unfoldable pub latest : Watch A → Option A
  latest w = first w.queue.items

module _ {R : Type 0} ⦃f : Float R⦄ where
  open f use {add, mul, div, lt, eq, decimal}

  -- `float(data.get("timestamp") or now_s() * 1000) / 1000.0`
  abbrev stamped : Option R → R → R
  stamped timestamp now = div (or_else timestamp (mul now (decimal 1000 0))) (decimal 1000 0)

  unfoldable pub parse_book : String → R → RawBook R → OrderBook R
  parse_book exchange_name now raw = record {
    exchange = exchange_name;
    bids = sorted (λ x y. lt y.0 x.0) (keep (λ l. lt nought l.1) raw.bids);
    asks = sorted (λ x y. lt x.0 y.0) (keep (λ l. lt nought l.1) raw.asks);
    timestamp = stamped raw.timestamp now;
  }

  unfoldable parse_ticker : R → RawTicker R → Ticker R
  parse_ticker now raw =
      let bid = or_else raw.bid nought in
      let ask = or_else raw.ask nought in
      let last = or_else raw.last nought in
      record {
        bid = bid;
        ask = ask;
        mid =
            if eq bid nought
            then last
            else if eq ask nought
            then last
            else div (add bid ask) (decimal 2 0);
        last = last;
        timestamp = stamped raw.timestamp now;
      }

-- The connector: both loops, and the flag that `is_ws_connected` answers.
pub record WsConnector (R : Type 0) : Type 0 where
  pub books : Watch (OrderBook R)
  pub tickers : Watch (Ticker R)
  pub ws_connected : Bool

pub data Event (R : Type 0) : Type 0 where
  book_update : Update (RawBook R) → R → Event R
  ticker_update : Update (RawTicker R) → R → Event R
  connect_ws disconnect_ws : Event R

abbrev pub mapped : {A B : Type 0} → (A → B) → Update A → Update B
mapped g (came x) = came (g x)
mapped g network_error = network_error
mapped g other_error = other_error
mapped g cancelled = cancelled
mapped g taken = taken

abbrev is_cancelled : {A : Type 0} → Update A → Bool
is_cancelled cancelled = true
is_cancelled (came x) = false
is_cancelled network_error = false
is_cancelled other_error = false
is_cancelled taken = false

module _ {R : Type 0} ⦃f : Float R⦄ (exchange_name : String) where
  -- The book loop clears the flag when it gives up; the ticker loop leaves it.
  unfoldable pub handle : Event R → WsConnector R → WsConnector R
  unfolding step parse_book parse_ticker
  handle (book_update u now) c =
      let w = step (mapped (parse_book exchange_name now) u) c.books in
      let gave_up =
        if c.books.running then (if is_cancelled u then false else not w.running) else false in
      record c { books = w; ws_connected = if gave_up then false else c.ws_connected }
  handle (ticker_update u now) c = record c {
    tickers = step (mapped (parse_ticker now) u) c.tickers;
  }
  handle connect_ws c = record c {
    books = started c.books.queue;
    tickers = started c.tickers.queue;
    ws_connected = true;
  }
  handle disconnect_ws c = record c {
    books = record c.books { running = false };
    tickers = record c.tickers { running = false };
    ws_connected = false;
  }

  unfoldable pub handle_all : List (Event R) → WsConnector R → WsConnector R
  unfolding handle
  handle_all [] c = c
  handle_all (e ∷ es) c = handle_all es (handle e c)
