-- ===== src/Orders/Monad.antt =====
-- What a method of the order manager runs in: the manager's state, exceptions, and the answers of
-- the outside. Whatever is called outside the manager (exchange, database, clock, uuid) answers as
-- a function of the number of calls made so far, so any sequence of answers is possible.
use mmp_meridian.Prelude.{ℕ, ◌+◌, Bool, Option, String, List, ◌∷◌}
use mmp_meridian.Prelude.Dict.{Dict}
use mmp_meridian.Prelude.Run.{Run, ok, answer}
use mmp_meridian.Exchange.{Order, Side, Status}

-- The desired order grid.
pub record OrderGrid (R : Type 0) : Type 0 where
  pub buy_prices : List R
  pub buy_amounts : List R
  pub sell_prices : List R
  pub sell_amounts : List R
  pub global_mid : R
  pub aggressiveness : R

-- The answers: `none` and `false` are exceptions.
pub record Outside (R : Type 0) : Type 0 where
  pub now : ℕ → R
  pub uuid : ℕ → String
  pub db : ℕ → Bool
  pub fetch_open_orders : ℕ → Option (List (Order R))
  pub create_limit_order : ℕ → Side → R → R → Option (Order R)
  pub cancel_order : ℕ → String → Bool
  pub cancel_all_orders : ℕ → Bool

-- The calls that leave the manager, the clock and uuid aside.
pub data Call (R : Type 0) : Type 0 where
  acquire fetch_open_orders cancel_all_orders : Call R
  create_limit_order : Side → R → R → Call R
  cancel_order : String → Call R
  insert_order : Order R → Call R
  update_order_status : String → Status → Call R

pub record Manager (R : Type 0) : Type 0 where
  pub open_orders : Dict (Order R)
  pub order_created_at : Dict R
  pub last_grid : Option (OrderGrid R)
  pub count : ℕ
  pub calls : List (Call R)

abbrev pub M : Type 0 → Type 0 → Type 0
M R A = Run (Manager R) A

module _ {R : Type 0} {A : Type 0} where
  -- A call to the outside, with its answer.
  abbrev pub ask : Call R → (ℕ → Option A) → M R A
  ask c reply s = (answer (reply s.count), record s { count = s.count + 1; calls = c ∷ s.calls })

  -- The clock and uuid always answer.
  abbrev pub read : (ℕ → A) → M R A
  read reply s = (ok (reply s.count), record s { count = s.count + 1 })
