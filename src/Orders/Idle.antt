-- ===== src/Orders/Idle.antt =====
-- A repost of a grid that the open orders cover already.
use mmp_meridian.Prelude.{
  ◌≡◌, refl, ap, true, false, ◌||◌, some, List, [], ◌∷◌, All, All-append, All-split, any,
  Bool-cases, inl, inr, arith,
}
use mmp_meridian.Prelude.Dict.{values}
use mmp_meridian.Float.{Float, IsOrdered, nought}
use mmp_meridian.Exchange.{Order, Side, buy, sell}
use mmp_meridian.Prelude.Run.{ok, raised, ◌>>=◌, ◌>>◌, modify, pure}
use mmp_meridian.Orders.Monad.{OrderGrid, Outside, Manager, M}
use mmp_meridian.Orders.Grid.{
  Level, zip, near, matched, open_prices, has_order_near, find_missing_levels, missing_of,
  find_stale_orders,
}
use mmp_meridian.Orders.Manager.{Settings, place_one, place_all, repost}
use mmp_meridian.Orders.Near.{any-open_prices}
use mmp_meridian.Orders.Coverage.{Covers}

then_ok :
    {R A B : Type 0} (m : M R A) (g : A → M R B) (s : Manager R) (a : A)
    → m s ≡ (ok a, s)
    → (m >>= g) s ≡ g a s
then_ok m g s a e = ap (λ x. elim x.0 [ ok b ↦ g b x.1 | raised ↦ (raised, x.1) ]) e

module _ {R : Type 0} ⦃f : Float R⦄ where
  open f use {le}

  -- A level that cannot be placed.
  abbrev IsEmpty : R → R → Type 0
  IsEmpty price amount = (le amount nought || le price nought) ≡ true

  none_stale :
      (g : OrderGrid R) (os : List (Order R))
      → All (λ a. matched g a ≡ true) os
      → find_stale_orders g os ≡ []
  unfolding find_stale_orders
  none_stale g [] h = refl
  none_stale g (a ∷ os) (h, hs) = ground (arith, h, none_stale g os hs)

  missing_IsEmpty :
      (o : IsOrdered R) (side : Side) (os : List (Order R)) (ls : List (Level R))
      → All
          (λ (l : Level R).
            le l.1 nought ≡ false → le l.0 nought ≡ false → any (λ a. near l.0 a.price) os ≡ true)
          ls
      → All (λ (l : Side × R × R). IsEmpty l.1 l.2) (missing_of side (open_prices [] os) ls)
  unfolding has_order_near
  missing_IsEmpty o side os [] h = tt
  missing_IsEmpty o side os ((p, a) ∷ ls) (h, hs) =
      elim (Bool-cases (has_order_near p (open_prices [] os))) [
        | inl y ↦ rw y (missing_IsEmpty o side os ls hs)
        | inr y ↦
            rw y
              (ground (arith, h, any-open_prices o (near p) [] os), missing_IsEmpty o side os ls hs)
      ]

  module _ (out : Outside R) (cfg : Settings R) where
    place_all-IsEmpty :
        (ls : List (Side × R × R)) (placed : List (Order R)) (s : Manager R)
        → All (λ (l : Side × R × R). IsEmpty l.1 l.2) ls
        → place_all out cfg ls placed s ≡ (ok placed, s)
    unfolding place_all place_one
    place_all-IsEmpty [] placed s h = refl
    place_all-IsEmpty ((side, p, a) ∷ ls) placed s (h, hs) = rw h (place_all-IsEmpty ls placed s hs)

    -- On ordered numbers, if the open orders cover the grid, then a repost of it calls neither the exchange
    -- nor the database and places nothing: only the grid is noted.
    pub repost_idle :
        (o : IsOrdered R) (g : OrderGrid R) (s : Manager R)
        → Covers g s
        → repost out cfg g s ≡ (ok [], record s { last_grid = some g })
    unfolding repost find_missing_levels
    repost_idle o g s c =
        let os = values s.open_orders in
        let (buys, sells) =
          All-split _ (zip g.buy_prices g.buy_amounts) (zip g.sell_prices g.sell_amounts) c.there in
        let idle = place_all-IsEmpty (find_missing_levels g os) [] s (
          All-append _ (missing_of buy (open_prices [] os) (zip g.buy_prices g.buy_amounts))
            (missing_of sell (open_prices [] os) (zip g.sell_prices g.sell_amounts))
            (missing_IsEmpty o buy os (zip g.buy_prices g.buy_amounts) buys)
            (missing_IsEmpty o sell os (zip g.sell_prices g.sell_amounts) sells)) in
        rw (none_stale g os c.wanted) (
          then_ok (place_all out cfg (find_missing_levels g os) [])
            (λ placed. modify (λ t. record t { last_grid = some g }) >> pure placed) s [] idle)
