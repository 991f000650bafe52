-- ===== src/Orders/Sync.antt =====
-- A synchronisation that the exchange answers: afterwards the cache holds the exchange's orders.
use mathlib.Core.Path.{subst, sym}
use mmp_meridian.Prelude.{
  ℕ, ◌+◌, ◌≡◌, refl, ap, ◌∙◌, true, false, ◌||◌, some, String, List, [], ◌∷◌, any, str_eq,
  str_eq_iff, Bool-cases, inl, inr, arith,
}
use mmp_meridian.Prelude.Dict.{Dict, contains, insert, erase, keys, contains-insert}
use mmp_meridian.Float.{Float}
use mmp_meridian.Exchange.{Order}
use mmp_meridian.Prelude.Run.{
  for_each, modify, pure, Returns, Returns-bind, Returns-weaken, Returns-answer, Returns-try,
}
use mmp_meridian.Orders.Monad.{Outside, Manager, acquire, ask, Call}
use mmp_meridian.Orders.Manager.{
  Settings, refresh, sync_open_orders, forget_filled, of_orders, absent_from, adopt,
}
use mmp_meridian.Orders.Cache.{IsKeyed, contains-erase, erase-IsKeyed}

module _ {R : Type 0} where
  abbrev erase_keys : List String → Dict (Order R) → Dict (Order R)
  erase_keys [] d = d
  erase_keys (k ∷ ks) d = erase_keys ks (erase k d)

  contains-erase_self :
      (k : String) (d : Dict (Order R)) → IsKeyed d → contains k (erase k d) ≡ false
  contains-erase_self k [] h = refl
  contains-erase_self k ((i, o) ∷ d) (e, n, h) =
      ground (arith, str_eq_iff i k, n, contains-erase_self k d h)

  contains-erase_keys :
      (k : String) (ks : List String) (d : Dict (Order R))
      → contains k d ≡ false
      → contains k (erase_keys ks d) ≡ false
  contains-erase_keys k [] d h = h
  contains-erase_keys k (j ∷ ks) d h = contains-erase_keys k ks (erase j d) (contains-erase j k d h)

  contains-erase_keys_mem :
      (k : String) (ks : List String) (d : Dict (Order R))
      → IsKeyed d
      → any (λ j. str_eq j k) ks ≡ true
      → contains k (erase_keys ks d) ≡ false
  contains-erase_keys_mem k [] d v h = cc
  contains-erase_keys_mem k (j ∷ ks) d v h = elim (Bool-cases (str_eq j k)) [
    | inl e ↦
        let same : j ≡ k = (str_eq_iff j k).0 e in
        contains-erase_keys k ks (erase j d)
          (subst (λ x. contains k (erase x d) ≡ false) (sym same) (contains-erase_self k d v))
    | inr e ↦ contains-erase_keys_mem k ks (erase j d) (erase-IsKeyed j d v) (ground arith)
  ]

  absent_from-mem :
      (live : Dict (Order R)) (k : String) (d : Dict (Order R))
      → contains k live ≡ false
      → contains k d ≡ true
      → any (λ j. str_eq j k) (absent_from live (keys d)) ≡ true
  absent_from-mem live k [] n h = cc
  absent_from-mem live k ((i, o) ∷ d) n h =
      ground (arith, str_eq_iff i k, absent_from-mem live k d n)

  contains-adopt :
      (k : String) (live d : Dict (Order R))
      → contains k (adopt live d) ≡ (contains k d || contains k live)
  contains-adopt k [] d = ground arith
  contains-adopt k ((i, o) ∷ live) d = elim (Bool-cases (contains i d)) [
    | inl e ↦ rw e (ground (arith, contains-adopt k live d, str_eq_iff i k))
    | inr e ↦ rw e (ground (arith, contains-adopt k live (insert i o d), contains-insert i k o d))
  ]

  -- The orders that are left, and those adopted, are the live ones.
  contains-agrees :
      (k : String) (live d : Dict (Order R))
      → IsKeyed d
      → contains k (adopt live (erase_keys (absent_from live (keys d)) d)) ≡ contains k live
  contains-agrees k live d v =
      let gone = absent_from live (keys d) in
      ground (
        arith,
        contains-adopt k live (erase_keys gone d),
        absent_from-mem live k d,
        contains-erase_keys k gone d,
        contains-erase_keys_mem k gone d v,
      )

module _ {R : Type 0} where
  abbrev Agrees : List (Order R) → Unit {0} → Manager R → Type 0
  Agrees live _ s = (k : String) → contains k s.open_orders ≡ contains k (of_orders [] live)

module _ {R : Type 0} ⦃f : Float R⦄ (out : Outside R) (cfg : Settings R) where
  forget_filled_lem :
      (db : (n : ℕ) → out.db n ≡ true) (k : String) (s : Manager R)
      → Returns (λ _ s'. s'.open_orders ≡ erase k s.open_orders) (forget_filled out cfg k s)
  unfolding forget_filled
  forget_filled_lem db k s = simp (db s.count) refl

  forget_each_lem :
      (db : (n : ℕ) → out.db n ≡ true) (ks : List String) (s : Manager R)
      → Returns
          (λ _ s'. s'.open_orders ≡ erase_keys ks s.open_orders)
          (for_each (forget_filled out cfg) ks s)
  forget_each_lem db [] s = refl
  forget_each_lem db (k ∷ ks) s =
      Returns-bind _ (forget_filled out cfg k) (λ _. for_each (forget_filled out cfg) ks) s
        (forget_filled_lem db k s)
        λ _ t e.
          Returns-weaken (for_each (forget_filled out cfg) ks t) (forget_each_lem db ks t)
            λ _ u e'. e' ∙ ap (erase_keys ks) e

  refresh_lem :
      (live : List (Order R)) (s : Manager R)
      → ((n : ℕ) → out.db n ≡ true)
      → out.fetch_open_orders s.count ≡ some live
      → IsKeyed s.open_orders
      → Returns
          (λ _ s'. (k : String) → contains k s'.open_orders ≡ contains k (of_orders [] live))
          (refresh out cfg s)
  unfolding refresh
  refresh_lem live s db h v =
      let asked = record s { count = s.count + 1; calls = Call.fetch_open_orders ∷ s.calls } in
      Returns-bind {P = λ a t. (a ≡ live) × (t.open_orders ≡ s.open_orders)} (Agrees live)
        (ask Call.fetch_open_orders out.fetch_open_orders) _ s
        (Returns-answer _ live (out.fetch_open_orders s.count) asked h (refl, refl))
        λ a t (ea, et).
          Returns-bind (Agrees live)
            (for_each (forget_filled out cfg) (absent_from (of_orders [] a) (keys t.open_orders)))
            (λ _. modify λ u. record u { open_orders = adopt (of_orders [] a) u.open_orders }) t
            (forget_each_lem db (absent_from (of_orders [] a) (keys t.open_orders)) t)
            λ _ u e k.
              subst (λ x. contains k (adopt (of_orders [] a) x) ≡ contains k (of_orders [] live))
                (sym e)
                (subst
                  (λ b.
                    contains k (
                      adopt (of_orders [] b) (
                        erase_keys (absent_from (of_orders [] b) (keys t.open_orders))
                          t.open_orders))
                    ≡ contains k (of_orders [] live))
                  (sym ea)
                  (contains-agrees k (of_orders [] live) t.open_orders (subst IsKeyed (sym et) v)))

  -- On a live exchange that answers, with a database that accepts every write and a cache keyed
  -- by the ids of its orders, a synchronisation returns, and the cache then holds an order under
  -- an id exactly if the exchange listed that id.
  pub sync_open_orders_agrees :
      (live : List (Order R)) (s : Manager R)
      → cfg.dry_run ≡ false
      → ((n : ℕ) → out.db n ≡ true)
      → out.fetch_open_orders (s.count + 1) ≡ some live
      → IsKeyed s.open_orders
      → Returns
          (λ _ s'. (k : String) → contains k s'.open_orders ≡ contains k (of_orders [] live))
          (sync_open_orders out cfg s)
  unfolding sync_open_orders
  sync_open_orders_agrees live s l db h v =
      let t = record s { count = s.count + 1; calls = acquire ∷ s.calls } in
      simp l (Returns-try (Agrees live) (refresh out cfg) (pure tt) t (refresh_lem live t db h v))
