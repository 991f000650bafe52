-- ===== src/Orders/Manager.antt =====
-- The methods of `OrderManager`, each with its calls to the exchange, the database and the clock.
use Prim.Native.String as Text
use mmp_meridian.Prelude.{
  ℕ, zero, suc, Bool, ◌&&◌, ◌||◌, Option, none, some, String, List, [], ◌∷◌, ◌++◌, if◌then◌else◌,
}
use mmp_meridian.Prelude.Dict.{Dict, lookup, contains, insert, erase, values, keys}
use mmp_meridian.Float.{Float, nought}
use mmp_meridian.Exchange.{Order, Side, Status, opened, filled, canceled}
use mmp_meridian.Prelude.Run.{pure, gets, try_except, modify, accepted, ◌>>=◌, ◌>>◌, for_each}
use mmp_meridian.Orders.Monad.{OrderGrid, Outside, Call, M, ask, read}
use mmp_meridian.Orders.Grid.{find_stale_orders, find_missing_levels}

-- The settings of a manager.
pub record Settings (R : Type 0) : Type 0 where
  pub exchange : String
  pub symbol : String
  pub dry_run : Bool
  pub max_order_age_seconds : R

-- `s[:n]`
abbrev first_chars : ℕ → String → String
first_chars zero s = ""
first_chars (suc n) Text.[] = ""
first_chars (suc n) (Text.◌∷◌ c s) = Text.◌∷◌ c (first_chars n s)

-- The id of a simulated order, from the 32 hexadecimal digits of a uuid.
unfoldable pub dry_id : String → String
dry_id hex = Text.◌++◌ "DRY-" (first_chars 8 hex)

module _ {R : Type 0} where
  abbrev pub of_orders : Dict (Order R) → List (Order R) → Dict (Order R)
  of_orders d [] = d
  of_orders d (o ∷ os) = of_orders (insert o.id o d) os

  abbrev pub absent_from : Dict (Order R) → List String → List String
  absent_from live [] = []
  absent_from live (k ∷ ks) =
      if contains k live then absent_from live ks else k ∷ absent_from live ks

  -- The orders of `live` that `d` does not know are added to it.
  abbrev pub adopt : Dict (Order R) → Dict (Order R) → Dict (Order R)
  adopt [] d = d
  adopt ((k, o) ∷ live) d = adopt live (if contains k d then d else insert k o d)

module _ {R : Type 0} ⦃f : Float R⦄ (out : Outside R) (cfg : Settings R) where
  open f use {sub, mul, lt, le}

  abbrev skip : M R (Unit {0})
  skip = pure tt

  unfoldable pub update_order_status : String → Status → M R (Unit {0})
  update_order_status id status =
      ask (Call.update_order_status id status) (λ n. accepted (out.db n))

  unfoldable pub insert_order : Order R → M R (Unit {0})
  insert_order o = ask (Call.insert_order o) (λ n. accepted (out.db n))

  abbrev acquire : M R (Unit {0})
  acquire = ask Call.acquire (λ n. some tt)

  unfoldable pub cancel_one : Order R → M R (Unit {0})
  unfolding update_order_status
  cancel_one o = do
    acquire
    if cfg.dry_run
        then skip
        else ask (Call.cancel_order o.id) (λ n. accepted (out.cancel_order n o.id))
    modify λ s. record s {
      open_orders = erase o.id s.open_orders;
      order_created_at = erase o.id s.order_created_at;
    }
    update_order_status o.id canceled

  -- A placed order enters the cache with its time, and then the database.
  unfoldable pub remember : Order R → M R (Option (Order R))
  remember o = do
    modify λ s. record s { open_orders = insert o.id o s.open_orders }
    created ← read out.now
    modify λ s. record s { order_created_at = insert o.id created s.order_created_at }
    insert_order o
    pure (some o)

  abbrev pub fake_order : Side → R → R → String → R → Order R
  fake_order side price amount id time = record {
    id = id;
    exchange = cfg.exchange;
    symbol = cfg.symbol;
    side = side;
    price = price;
    amount = amount;
    amount_usd = mul price amount;
    status = opened;
    timestamp = time;
    filled_amount = nought;
    filled_price = nought;
    fee = nought;
    fee_currency = "";
  }

  place_dry : Side → R → R → M R (Option (Order R))
  place_dry side price amount = do
    hex ← read out.uuid
    time ← read out.now
    remember (fake_order side price amount (dry_id hex) time)

  place_live : Side → R → R → M R (Option (Order R))
  place_live side price amount =
      try_except
        (do
          order ←
              ask (Call.create_limit_order side price amount)
                (λ n. out.create_limit_order n side price amount)
          remember order)
        (pure none)

  unfoldable pub place_one : Side → R → R → M R (Option (Order R))
  unfolding place_dry place_live
  place_one side price amount = if le amount nought || le price nought then pure none else do
    acquire
    if cfg.dry_run then place_dry side price amount else place_live side price amount

  unfoldable pub forget_filled : String → M R (Unit {0})
  unfolding update_order_status
  forget_filled id = do
    modify λ s. record s { open_orders = erase id s.open_orders }
    update_order_status id filled

  -- The body of the `try` in `_sync_open_orders`.
  unfoldable pub refresh : M R (Unit {0})
  unfolding forget_filled
  refresh = do
    live ← ask Call.fetch_open_orders out.fetch_open_orders
    let live_map = of_orders [] live
    known ← gets λ s. keys s.open_orders
    for_each forget_filled (absent_from live_map known)
    modify λ s. record s { open_orders = adopt live_map s.open_orders }

  unfoldable pub sync_open_orders : M R (Unit {0})
  unfolding refresh
  sync_open_orders = do acquire; if cfg.dry_run then skip else try_except refresh skip

  abbrev pub aged_ids : R → Dict (Order R) → Dict R → List String
  aged_ids now orders [] = []
  aged_ids now orders ((id, created) ∷ d) =
      if lt cfg.max_order_age_seconds (sub now created) && contains id orders
      then id ∷ aged_ids now orders d
      else aged_ids now orders d

  unfoldable pub cancel_found : Option (Order R) → M R (Unit {0})
  unfolding cancel_one
  cancel_found none = skip
  cancel_found (some o) = cancel_one o

  unfoldable pub cancel_by_id : String → M R (Unit {0})
  unfolding cancel_found
  cancel_by_id id = do found ← gets λ s. lookup id s.open_orders; cancel_found found

  unfoldable pub cancel_stale_by_age : M R (Unit {0})
  unfolding cancel_by_id
  cancel_stale_by_age = if le cfg.max_order_age_seconds nought then skip else do
    now ← read out.now
    ids ← gets λ s. aged_ids now s.open_orders s.order_created_at
    for_each cancel_by_id ids

  -- The loop that places orders, and gathers those that were placed.
  unfoldable pub place_all : List (Side × R × R) → List (Order R) → M R (List (Order R))
  unfolding place_one
  place_all [] placed = pure placed
  place_all ((side, price, amount) ∷ ls) placed = do
    order ← place_one side price amount
    place_all ls (elim order [ none ↦ placed | some o ↦ placed ++ o ∷ [] ])

  -- The part of `diff_and_repost` that follows the synchronisation.
  unfoldable pub repost : OrderGrid R → M R (List (Order R))
  repost grid = do
    to_cancel ← gets λ s. find_stale_orders grid (values s.open_orders)
    to_place ← gets λ s. find_missing_levels grid (values s.open_orders)
    for_each cancel_one to_cancel
    placed ← place_all to_place []
    modify λ s. record s { last_grid = some grid }
    pure placed

  unfoldable pub diff_and_repost : OrderGrid R → M R (List (Order R))
  unfolding repost
  diff_and_repost grid = do sync_open_orders; cancel_stale_by_age; repost grid

  unfoldable pub cancel_all : M R (Unit {0})
  unfolding update_order_status
  cancel_all = do
    if cfg.dry_run
        then skip
        else (acquire >> ask Call.cancel_all_orders (λ n. accepted (out.cancel_all_orders n)))
    ids ← gets λ s. keys s.open_orders
    for_each (λ id. update_order_status id canceled) ids
    modify λ s. record s { open_orders = []; order_created_at = [] }
