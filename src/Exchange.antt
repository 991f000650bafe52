-- ===== src/Exchange.antt =====
-- exchange/base.py: the data that the connectors exchange with the rest of the program. The texts
-- "buy" and "sell", and the four texts of an order's status that are documented, are the constructors of
-- data types; ccxt reports others.
use mmp_meridian.Prelude.{String}

pub data Side : Type 0 where
  buy sell : Side

pub data Status : Type 0 where
  opened filled canceled partial : Status
  other : String → Status

pub record Ticker (R : Type 0) : Type 0 where
  pub bid : R
  pub ask : R
  pub mid : R
  pub last : R
  pub timestamp : R

pub record Candle (R : Type 0) : Type 0 where
  pub timestamp : R
  pub open_price : R
  pub high : R
  pub low : R
  pub close : R
  pub volume : R

pub record Balance (R : Type 0) : Type 0 where
  pub usd : R
  pub token : R
  pub quote_currency : String

pub record Order (R : Type 0) : Type 0 where
  pub id : String
  pub exchange : String
  pub symbol : String
  pub side : Side
  pub price : R
  pub amount : R
  pub amount_usd : R
  pub status : Status
  pub timestamp : R
  pub filled_amount : R
  pub filled_price : R
  pub fee : R
  pub fee_currency : String

-- A completed fill of an order.
pub record Fill (R : Type 0) : Type 0 where
  pub id : String
  pub order_id : String
  pub exchange : String
  pub symbol : String
  pub side : Side
  pub filled_price : R
  pub filled_amount : R
  pub fee : R
  pub fee_currency : String
  pub timestamp : R
  pub pnl_usd : R
