-- ===== src/Orders/Coverage.antt =====
-- What a dry run of `diff_and_repost` achieves: the open orders are those of the grid.
use mmp_meridian.Prelude.{
  ℕ, ◌≤◌, ◌≡◌, ◌∙◌, Bool, true, false, some, List, [], ◌++◌, All, All-append, All-split, All-weaken,
  any, any-append, arith,
}
use mmp_meridian.Prelude.Dict.{values}
use mmp_meridian.Float.{Float, IsOrdered, IsMonotone, nought}
use mmp_meridian.Exchange.{Order, Side, buy, sell}
use mmp_meridian.Prelude.Run.{
  Result, ok, raised, modify, pure, for_each, ◌>>=◌, ◌>>◌, Returns, Returns-bind,
}
use mmp_meridian.Orders.Monad.{OrderGrid, Outside, Manager, M}
use mmp_meridian.Orders.Grid.{
  Level, zip, near, desired_prices, matched, open_prices, has_order_near, find_missing_levels,
  missing_of, find_stale_orders,
}
use mmp_meridian.Orders.Manager.{
  Settings, cancel_one, place_all, repost, diff_and_repost, sync_open_orders, cancel_stale_by_age,
}
use mmp_meridian.Orders.Cache.{
  IsKeyed, erase_all, erase_all-keep, keep_entries, keep_entries-All, keep_entries-any,
}
use mmp_meridian.Orders.Placing.{Placed, place_all-Placed}
use mmp_meridian.Orders.Near.{
  near_self, any-open_prices, Among, zip-Among, missing_of-All, missing_of-covers,
}
use mmp_meridian.Orders.Steps.{
  IsDry, IsReady, cancel_each_lem, sync_open_orders-IsReady, cancel_stale_by_age-IsReady,
}

-- A premise on the state that is left.
Returns-at :
    {S A : Type 0} (Q P : S → Type 0) (r : Result A × S)
    → Returns (λ _ s'. Q s' → P s') r
    → Q r.1
    → Returns (λ _ s'. P s') r
Returns-at Q P (ok a, s) p q = p q
Returns-at Q P (raised, s) p q = p

module _ {R : Type 0} ⦃f : Float R⦄ where
  open f use {le}

  abbrev pub levels : OrderGrid R → List (Level R)
  levels g = zip g.buy_prices g.buy_amounts ++ zip g.sell_prices g.sell_amounts

  -- Every open order is near a price of the grid, and every level of the grid with a positive price
  -- and amount has an open order near its price.
  pub record Covers (g : OrderGrid R) (s : Manager R) : Type 0 where
    pub wanted : All (λ o. matched g o ≡ true) (values s.open_orders)
    pub there :
        All
          (λ (l : Level R).
            le l.1 nought ≡ false
            → le l.0 nought ≡ false
            → any (λ o. near l.0 o.price) (values s.open_orders) ≡ true)
          (levels g)

  module _ (out : Outside R) (cfg : Settings R) (last : ℕ) (d : IsDry out cfg last) where
    module _ (o : IsOrdered R) (m : IsMonotone R) where
      near-matched :
          (g : OrderGrid R) (p : R) (a : Order R)
          → Among p (desired_prices g)
          → near p a.price ≡ true
          → matched g a ≡ true
      near-matched g p a h n = h (λ x. near x a.price) n

      side_Among :
          (g : OrderGrid R)
          → All (λ (l : Level R). Among l.0 (desired_prices g)) (zip g.buy_prices g.buy_amounts)
            × All (λ (l : Level R). Among l.0 (desired_prices g)) (zip g.sell_prices g.sell_amounts)
      side_Among g = (
        zip-Among g.buy_prices g.buy_amounts (desired_prices g)
            λ x h test t. ground (arith, any-append test g.buy_prices g.sell_prices, h test t),
        zip-Among g.sell_prices g.sell_amounts (desired_prices g)
            λ x h test t. ground (arith, any-append test g.buy_prices g.sell_prices, h test t),
      )

      abbrev Suits : OrderGrid R → R → R → Type 0
      Suits g price amount = (a : Order R) → a.price ≡ price → matched g a ≡ true

      abbrev IsThere : Manager R → R → R → Type 0
      IsThere u price amount =
          le amount nought ≡ false
          → le price nought ≡ false
          → any (λ a. near price a.price) (values u.open_orders) ≡ true

      -- An order is placed only where the grid wants one.
      missing_Suits :
          (g : OrderGrid R) (side : Side) (prices : List R) (ls : List (Level R))
          → All (λ (l : Level R). Among l.0 (desired_prices g)) ls
          → All (λ (l : Side × R × R). Suits g l.1 l.2) (missing_of side prices ls)
      missing_Suits g side prices ls h = missing_of-All (Suits g) side prices ls (
          All-weaken _ _ ls (λ l among a e. near-matched g l.0 a among (rw e (near_self o m l.0)))
            h)

      near_before :
          (p : R) (s : Manager R)
          → has_order_near p (open_prices [] (values s.open_orders)) ≡ true
          → any (λ a. near p a.price) (values s.open_orders) ≡ true
      unfolding has_order_near
      near_before p s y = ground (arith, any-open_prices o (near p) [] (values s.open_orders))

      -- A level is there once it has been placed, if an order near it was not there before.
      side_IsThere :
          (g : OrderGrid R) (s t u : Manager R) (side : Side) (ls : List (Level R))
          → t.open_orders ≡ keep_entries (matched g) s.open_orders
          → ((test : Order R → Bool)
              → any test (values t.open_orders) ≡ true
              → any test (values u.open_orders) ≡ true)
          → All (λ (l : Level R). Among l.0 (desired_prices g)) ls
          → All
              (λ (l : Side × R × R). IsThere u l.1 l.2)
              (missing_of side (open_prices [] (values s.open_orders)) ls)
          → All (λ (l : Level R). IsThere u l.0 l.1) ls
      side_IsThere g s t u side ls e kept among placed =
          missing_of-covers (IsThere u) side (open_prices [] (values s.open_orders)) ls
            (All-weaken _ _ ls
              (λ l h y _ _.
                kept (λ a. near l.0 a.price)
                  (rw e (
                    keep_entries-any (matched g) (λ a. near l.0 a.price) s.open_orders
                      (λ a n. near-matched g l.0 a h n) (near_before l.0 s y))))
              among)
            placed

      covered :
          (g : OrderGrid R) (s t u : Manager R)
          → t.open_orders ≡ keep_entries (matched g) s.open_orders
          → Placed (find_missing_levels g (values s.open_orders)) t u
          → Covers g u
      unfolding find_missing_levels
      covered g s t u e p =
          let prices = open_prices [] (values s.open_orders) in
          let buys = zip g.buy_prices g.buy_amounts in
          let sells = zip g.sell_prices g.sell_amounts in
          let (among_buys, among_sells) = side_Among g in
          let (put_buys, put_sells) =
            All-split _ (missing_of buy prices buys) (missing_of sell prices sells) (
              All-weaken _ (λ (l : Side × R × R). IsThere u l.1 l.2)
                (missing_of buy prices buys ++ missing_of sell prices sells)
                (λ l h ha hp. h ha hp (λ a. near l.1 a.price) (λ a i. rw i (near_self o m l.1)))
                p.there) in
          record {
            wanted =
                p.clean (matched g)
                  (All-append _ (missing_of buy prices buys) (missing_of sell prices sells)
                    (missing_Suits g buy prices buys among_buys)
                    (missing_Suits g sell prices sells among_sells))
                  (rw e (keep_entries-All (matched g) s.open_orders));
            there =
                All-append _ buys sells (side_IsThere g s t u buy buys e p.kept among_buys put_buys)
                  (side_IsThere g s t u sell sells e p.kept among_sells put_sells);
          }

      stale_gone :
          (g : OrderGrid R) (s : Manager R)
          → IsKeyed s.open_orders
          → erase_all (find_stale_orders g (values s.open_orders)) s.open_orders
            ≡ keep_entries (matched g) s.open_orders
      unfolding find_stale_orders
      stale_gone g s k = erase_all-keep (matched g) s.open_orders k

      abbrev finish : OrderGrid R → List (Order R) → M R (List (Order R))
      finish g placed = modify (λ s. record s { last_grid = some g }) >> pure placed

      -- What a call leaves that makes its last call before the call `last`.
      abbrev Done : OrderGrid R → Manager R → Type 0
      Done g s' = s'.count ≤ last → IsReady out cfg last s' × Covers g s'

      -- From a ready state a repost returns, and its open orders cover the grid.
      repost-Covers :
          (g : OrderGrid R) (s : Manager R)
          → IsReady out cfg last s
          → Returns (λ _ s'. Done g s') (repost out cfg g s)
      unfolding repost
      repost-Covers g s v =
          let stale = find_stale_orders g (values s.open_orders) in
          let missing = find_missing_levels g (values s.open_orders) in
          Returns-bind _ (for_each (cancel_one out cfg) stale)
            (λ _. place_all out cfg missing [] >>= λ placed. finish g placed) s
            (cancel_each_lem out cfg last d stale s v)
            λ _ t (e, w).
              Returns-bind _ (place_all out cfg missing []) (finish g) t
                (place_all-Placed out cfg last d missing [] t (λ _. w))
                λ placed u (_, k) h.
                  let (x, p) = k h in
                  (
                    record { keyed = x.keyed; fresh = x.fresh },
                    covered g s t (record u { last_grid = some g }) (e ∙ stale_gone g s v.keyed)
                        (record { kept = p.kept; clean = p.clean; there = p.there }),
                  )

      pub diff_and_repost-Done :
          (g : OrderGrid R) (s : Manager R)
          → IsReady out cfg last s
          → Returns (λ _ s'. Done g s') (diff_and_repost out cfg g s)
      unfolding diff_and_repost
      diff_and_repost-Done g s v =
          Returns-bind _ (sync_open_orders out cfg)
            (λ _. cancel_stale_by_age out cfg >> repost out cfg g) s
            (sync_open_orders-IsReady out cfg last d s v)
            λ _ t w.
              Returns-bind _ (cancel_stale_by_age out cfg) (λ _. repost out cfg g) t
                (cancel_stale_by_age-IsReady out cfg last d t w) λ _ u x. repost-Covers g u x

      -- On an ordered, monotone arithmetic, a dry run of `diff_and_repost` returns, if the
      -- database accepts every write and the cache is keyed by the ids of its orders. If its last
      -- call comes before the call `last`, and the eight digits that are kept of the uuids drawn
      -- until then repeat neither one another nor an id in the cache, then the cache is so again,
      -- every open order is near a price of the grid, and every level of the grid with a positive
      -- price and amount has an open order near its price.
      pub diff_and_repost-Covers :
          (g : OrderGrid R) (s : Manager R)
          → IsReady out cfg last s
          → (diff_and_repost out cfg g s).1.count ≤ last
          → Returns (λ _ s'. IsReady out cfg last s' × Covers g s') (diff_and_repost out cfg g s)
      diff_and_repost-Covers g s v h =
          Returns-at (λ s'. s'.count ≤ last) (λ s'. IsReady out cfg last s' × Covers g s')
            (diff_and_repost out cfg g s) (diff_and_repost-Done g s v) h
