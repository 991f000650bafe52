-- ===== src/Orders/Live.antt =====
-- The order manager on a live exchange: what a refused call leaves behind, and a synchronisation
-- that is not answered.
use mmp_meridian.Prelude.{◌+◌, ◌≡◌, false, none, arith}
use mmp_meridian.Float.{Float}
use mmp_meridian.Exchange.{Order, Side}
use mmp_meridian.Prelude.Run.{ok, raised}
use mmp_meridian.Orders.Monad.{Outside, Manager}
use mmp_meridian.Orders.Manager.{
  Settings, cancel_one, place_one, refresh, sync_open_orders, cancel_all,
}

module _ {R : Type 0} ⦃f : Float R⦄ (out : Outside R) (cfg : Settings R)
    (live : cfg.dry_run ≡ false) where
  -- If the exchange refuses a cancellation, `_cancel_one` raises and the order stays in the cache.
  cancel_one_refused :
      (o : Order R) (s : Manager R)
      → out.cancel_order (s.count + 1) o.id ≡ false
      → let (r, s') = cancel_one out cfg o s in
        (r ≡ raised) × (s'.open_orders ≡ s.open_orders) × (s'.order_created_at ≡ s.order_created_at)
  unfolding cancel_one
  cancel_one_refused o s h = ground (arith, live, h)

  -- If the exchange refuses an order, `_place_one` returns no order and the cache is unchanged.
  place_one_refused :
      (side : Side) (price amount : R) (s : Manager R)
      → out.create_limit_order (s.count + 1) side price amount ≡ none
      → let (r, s') = place_one out cfg side price amount s in
        (r ≡ ok none) × (s'.open_orders ≡ s.open_orders)
  unfolding place_one
  place_one_refused side price amount s h = ground (arith, live, h)

  -- If the exchange refuses to cancel all orders, `cancel_all` raises and forgets no order.
  cancel_all_refused :
      (s : Manager R)
      → out.cancel_all_orders (s.count + 1) ≡ false
      → let (r, s') = cancel_all out cfg s in (r ≡ raised) × (s'.open_orders ≡ s.open_orders)
  unfolding cancel_all
  cancel_all_refused s h = ground (arith, live, h)

  -- If the exchange does not answer, a synchronisation returns and keeps the cache.
  sync_open_orders_unanswered :
      (s : Manager R)
      → out.fetch_open_orders (s.count + 1) ≡ none
      → let (r, s') = sync_open_orders out cfg s in (r ≡ ok tt) × (s'.open_orders ≡ s.open_orders)
  unfolding sync_open_orders refresh
  sync_open_orders_unanswered s h = ground (arith, live, h)
