-- ===== src/Orders/Tests.antt =====
-- The order manager on concrete inputs: a dry run and an exchange that answers.
use mmp_meridian.Prelude.{ℕ, String, Bool, true, not, ◌≤◌, ◌≡◌, refl, some, none, [], ◌∷◌, arith}
use mmp_meridian.Prelude.Int.{ℤ, ◌-ℤ◌}
use mmp_meridian.Prelude.Dict.{contains}
use mmp_meridian.Float.Fixed.{fixed, fixed-IsOrdered, fixed-IsMonotone, mul, div}
use mmp_meridian.Samples.{micro, order}
use mmp_meridian.Samples.Outside.{uuid, listed, outside, dry, live, last, below, below-at, is_dry}
use mmp_meridian.Exchange.{buy, sell}
use mmp_meridian.Prelude.Run.{ok, Returns}
use mmp_meridian.Orders.Monad.{OrderGrid, Manager}
use mmp_meridian.Orders.Manager.{
  diff_and_repost, repost, sync_open_orders, of_orders, cancel_stale_by_age, place_all, place_one,
  cancel_one, dry_id, remember, insert_order,
}
use mmp_meridian.Orders.Steps.{IsReady}
use mmp_meridian.Orders.Coverage.{Covers, diff_and_repost-Covers}
use mmp_meridian.Orders.Idle.{repost_idle}
use mmp_meridian.Orders.Grid.{near, find_stale_orders, find_missing_levels, has_order_near}
use mmp_meridian.Orders.Sync.{sync_open_orders_agrees}

-- An order that the grid does not want, and one that it does.
abbrev before : Manager ℤ
before = record {
  open_orders =
      ("old", order "old" buy 20_000 1_000_000) ∷ ("good", order "good" buy 24_000 1_000_000) ∷ [];
  order_created_at = ("old", micro 0) ∷ ("good", micro 0) ∷ [];
  last_grid = none;
  count = 10;
  calls = [];
}

abbrev grid : OrderGrid ℤ
grid = record {
  buy_prices = micro 24_000 ∷ micro 23_000 ∷ [];
  buy_amounts = micro 1_000_000 ∷ micro 1_000_000 ∷ [];
  sell_prices = micro 26_000 ∷ [];
  sell_amounts = micro 1_000_000 ∷ [];
  global_mid = micro 25_000;
  aggressiveness = micro 500_000;
}

abbrev is_new : ℕ → Bool
is_new n = not (contains (dry_id (outside.uuid n)) before.open_orders)

all_new : below is_new last ≡ true
unfolding below outside dry_id uuid
all_new = refl

is_ready : IsReady outside dry last before
is_ready = record {
  keyed = (refl, refl, (refl, refl, tt));
  fresh = λ n h l. ground (arith, below-at is_new last n l all_new);
}

call_count : (diff_and_repost outside dry grid before).1.count ≡ 24
unfolding diff_and_repost repost sync_open_orders cancel_stale_by_age outside uuid near mul div ◌-ℤ◌
    find_stale_orders find_missing_levels has_order_near place_all place_one cancel_one remember
    insert_order
call_count = refl

few_calls : (diff_and_repost outside dry grid before).1.count ≤ last
few_calls = omega (arith, call_count)

diff_and_repost-Covers_example :
    Returns
      (λ _ s. IsReady outside dry last s × Covers grid s)
      (diff_and_repost outside dry grid before)
diff_and_repost-Covers_example =
    diff_and_repost-Covers outside dry last is_dry fixed-IsOrdered fixed-IsMonotone grid before
      is_ready few_calls

sync_open_orders_agrees_example :
    Returns
      (λ _ s. (k : String) → contains k s.open_orders ≡ contains k (of_orders [] listed))
      (sync_open_orders outside live before)
unfolding outside
sync_open_orders_agrees_example =
    sync_open_orders_agrees outside live listed before refl (λ n. refl) refl
      (refl, refl, (refl, refl, tt))

abbrev settled : Manager ℤ
settled = record before {
  open_orders =
      ("good", order "good" buy 24_000 1_000_000)
      ∷ ("low", order "low" buy 23_000 1_000_000)
      ∷ ("ask", order "ask" sell 26_000 1_000_000)
      ∷ [];
}

settled-Covers : Covers grid settled
unfolding near mul div ◌-ℤ◌
settled-Covers = record {
  wanted = (refl, (refl, (refl, tt)));
  there = (λ h k. refl, (λ h k. refl, (λ h k. refl, tt)));
}

repost_idle_example :
    repost outside live grid settled ≡ (ok [], record settled { last_grid = some grid })
repost_idle_example = repost_idle outside live fixed-IsOrdered grid settled settled-Covers
