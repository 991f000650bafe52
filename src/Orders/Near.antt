-- ===== src/Orders/Near.antt =====
-- Facts about the comparison with the grid.
use mathlib.Core.Path.{subst, sym}
use mmp_meridian.Prelude.{
  ◌≡◌, refl, ap, ◌∙◌, Bool, true, ◌||◌, List, [], ◌∷◌, ◌++◌, All, any, any-append, Bool-cases, inl,
  inr, arith,
}
use mmp_meridian.Float.{Float, ◌≼◌, IsOrdered, IsMonotone, max, abs, nought}
use mmp_meridian.Float.Order.{lt_of_lt_of_le, le-max_right, not-lt_of_le}
use mmp_meridian.Exchange.{Order, Side}
use mmp_meridian.Orders.Grid.{Level, zip, near, open_prices, has_order_near, missing_of}

module _ {R : Type 0} ⦃f : Float R⦄ (o : IsOrdered R) where
  open f use {sub, mul, div, lt, eq, decimal}

  module _ (m : IsMonotone R) where
    abs_zero : abs (decimal 0 0) ≡ decimal 0 0
    abs_zero = rw (not-lt_of_le o nought nought (o.le_refl nought))

    -- Every price is near itself.
    pub near_self : (p : R) → near p p ≡ true
    unfolding near
    near_self p =
        let wide = max p (decimal 1 8) in
        let wide_pos : lt nought wide ≡ true =
          lt_of_lt_of_le o nought (decimal 1 8) wide (o.decimal_pos 0 8 refl)
            (le-max_right o p (decimal 1 8)) in
        let none : mul (div (abs (sub p p)) wide) (decimal 100 0) ≡ nought =
          ap (λ x. mul (div (abs x) wide) (decimal 100 0)) (m.sub_self p)
          ∙ ap (λ x. mul (div x wide) (decimal 100 0)) abs_zero
          ∙ ap (λ x. mul x (decimal 100 0)) (m.zero-div wide wide_pos)
          ∙ m.zero-mul (decimal 100 0) in
        subst (λ x. x ≼ decimal 3 2) (sym none) (o.decimal_le 0 0 3 2 refl)

  seen_any :
      (test : R → Bool) (x : R) (seen : List R)
      → any (λ q. eq q x) seen ≡ true
      → test x ≡ true
      → any test seen ≡ true
  seen_any test x [] h t = h
  seen_any test x (q ∷ seen) h t = ground (arith, o.eq_iff q x, seen_any test x seen)

  -- The prices of the dict are those of the orders.
  pub any-open_prices :
      (test : R → Bool) (seen : List R) (os : List (Order R))
      → any test (open_prices seen os) ≡ (any test seen || any (λ a. test a.price) os)
  unfolding open_prices
  any-open_prices test seen [] = ground arith
  any-open_prices test seen (a ∷ os) = elim (Bool-cases (any (λ q. eq q a.price) seen)) [
    | inl y ↦ rw y (ground (arith, any-open_prices test seen os, seen_any test a.price seen y))
    | inr y ↦ rw y (
        ground (
          arith,
          any-open_prices test (seen ++ a.price ∷ []) os,
          any-append test seen (a.price ∷ []),
        ))
  ]

module _ {R : Type 0} where
  -- `x` stands in `xs`, said by tests.
  abbrev pub Among : R → List R → Type 0
  Among x xs = (test : R → Bool) → test x ≡ true → any test xs ≡ true

  pub zip-Among :
      (xs : List R) (ys : List R) (all : List R)
      → ((x : R) → Among x xs → Among x all)
      → All (λ (l : Level R). Among l.0 all) (zip xs ys)
  zip-Among [] ys all h = tt
  zip-Among (x ∷ xs) [] all h = tt
  zip-Among (x ∷ xs) (y ∷ ys) all h = (
    h x (λ test t. ground arith),
    zip-Among xs ys all (λ z k. h z (λ test t. ground (arith, k test t))),
  )

module _ {R : Type 0} ⦃f : Float R⦄ where
  -- What holds of all levels holds of the missing ones.
  pub missing_of-All :
      (P : R → R → Type 0) (side : Side) (prices : List R) (ls : List (Level R))
      → All (λ (l : Level R). P l.0 l.1) ls
      → All (λ (l : Side × R × R). P l.1 l.2) (missing_of side prices ls)
  missing_of-All P side prices [] h = tt
  missing_of-All P side prices ((p, a) ∷ ls) (h, hs) = elim (Bool-cases (has_order_near p prices)) [
    | inl y ↦ rw y (missing_of-All P side prices ls hs)
    | inr y ↦ rw y (h, missing_of-All P side prices ls hs)
  ]

  -- What holds of the missing levels, and of those with an order near, holds of all.
  pub missing_of-covers :
      (P : R → R → Type 0) (side : Side) (prices : List R) (ls : List (Level R))
      → All (λ (l : Level R). has_order_near l.0 prices ≡ true → P l.0 l.1) ls
      → All (λ (l : Side × R × R). P l.1 l.2) (missing_of side prices ls)
      → All (λ (l : Level R). P l.0 l.1) ls
  missing_of-covers P side prices [] h k = tt
  missing_of-covers P side prices ((p, a) ∷ ls) (h, hs) k =
      elim (Bool-cases (has_order_near p prices)) [
        | inl y ↦ (h y, missing_of-covers P side prices ls hs (rw y at k))
        | inr y ↦
            let k' : All (λ (l : Side × R × R). P l.1 l.2)
                ((side, p, a) ∷ missing_of side prices ls) =
              rw y at k in
            (k'.0, missing_of-covers P side prices ls hs k'.1)
      ]
