-- ===== src/Connectors/Monad.antt =====
-- What a method of a connector runs in: the connector's state, and exceptions that tell their class.
-- The library ccxt is outside: its exchange object answers as a function of the number of calls made.
use mmp_meridian.Prelude.{ℕ, ◌+◌, Bool, Option, String, List, ◌∷◌}
use mmp_meridian.Prelude.Dict.{Dict}
use mmp_meridian.Exchange.{Side, Status}

-- The exceptions that the code tells apart: those of `_RETRYABLE_ERRORS`, three classes of
-- ccxt.ExchangeError, the rest of that class, and any other exception.
pub data Failure : Type 0 where
  retryable authentication order_not_found not_supported refused broken : Failure

pub data Reply (A : Type 0) : Type 0 where
  answered : A → Reply A
  failed : Failure → Reply A

-- What ccxt answers: its dicts with the keys that are read. `none` is a missing key or `None`.
pub record RawTicker (R : Type 0) : Type 0 where
  pub bid : Option R
  pub ask : Option R
  pub last : Option R
  pub timestamp : Option R

pub record RawOrder (R : Type 0) : Type 0 where
  pub id : String
  pub side : Side
  pub price : Option R
  pub average : Option R
  pub amount : Option R
  pub filled : Option R
  pub fee_cost : Option R
  pub fee_currency : Option String
  pub status : Option Status
  pub timestamp : Option R

pub record RawTrade (R : Type 0) : Type 0 where
  pub id : String
  pub order : Option String
  pub side : Side
  pub price : Option R
  pub amount : Option R
  pub fee_cost : Option R
  pub fee_currency : Option String
  pub timestamp : Option R

-- `truncate` is Python's `int`; `free` of a balance is a dict.
pub record Api (R : Type 0) : Type 0 where
  pub time : ℕ → R
  pub truncate : R → R
  pub load_markets : ℕ → Reply (Unit {0})
  pub close : ℕ → Reply (Unit {0})
  pub fetch_ticker : ℕ → Reply (RawTicker R)
  pub fetch_ohlcv : ℕ → Reply (List (R × R × R × R × R × R))
  pub fetch_balance : ℕ → Reply (Dict (Option R))
  pub create_limit_order : ℕ → Side → R → R → Reply (RawOrder R)
  pub cancel_order : ℕ → String → Reply (Unit {0})
  pub cancel_all_orders : ℕ → Reply (Unit {0})
  pub fetch_open_orders : ℕ → Reply (List (RawOrder R))
  pub fetch_my_trades : ℕ → Option R → Reply (List (RawTrade R))

pub data Call (R : Type 0) : Type 0 where
  load_markets close fetch_ticker fetch_ohlcv fetch_balance : Call R
  cancel_all_orders fetch_open_orders : Call R
  create_limit_order : Side → R → R → Call R
  cancel_order : String → Call R
  fetch_my_trades : Option R → Call R

-- The calls made and the seconds slept, the latest first.
pub record Adapter (R : Type 0) : Type 0 where
  pub connected : Bool
  pub count : ℕ
  pub calls : List (Call R)
  pub slept : List ℕ

abbrev pub C : Type 0 → Type 0 → Type 0
C R A = Adapter R → Reply A × Adapter R

module _ {R A : Type 0} where
  abbrev pub pure : A → C R A
  pure x a = (answered x, a)

  -- One call of ccxt.
  abbrev pub once : Call R → (ℕ → Reply A) → C R A
  once c reply a = (reply a.count, record a { count = a.count + 1; calls = c ∷ a.calls })

  abbrev pub read : (ℕ → A) → C R A
  read reply a = (answered (reply a.count), record a { count = a.count + 1 })

  -- `try: m except Exception: handler`, where the handler sees the exception.
  abbrev pub handle : C R A → (Failure → C R A) → C R A
  handle m handler a =
      let (r, a') = m a in elim r [ answered x ↦ (answered x, a') | failed e ↦ handler e a' ]

  abbrev pub throw : Failure → C R A
  throw e a = (failed e, a)

module _ {R : Type 0} where
  abbrev pub modify : (Adapter R → Adapter R) → C R (Unit {0})
  modify g a = (answered tt, g a)

  abbrev pub sleep : ℕ → C R (Unit {0})
  sleep n = modify λ a. record a { slept = n ∷ a.slept }

  infixl 5 ◌>>=◌ ◌>>◌
  abbrev pub ◌>>=◌ : {A B : Type 0} → C R A → (A → C R B) → C R B
  ◌>>=◌ m g a = let (r, a') = m a in elim r [ answered x ↦ g x a' | failed e ↦ (failed e, a') ]

  abbrev pub ◌>>◌ : {A B : Type 0} → C R A → C R B → C R B
  m >> k = m >>= λ _. k
