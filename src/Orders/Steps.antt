-- ===== src/Orders/Steps.antt =====
-- The steps of the order manager in a dry run: what each does to the cache of open orders, while
-- the database accepts every write.
use mathlib.Core.Path.{subst}
use mmp_meridian.Prelude.{
  ℕ, ◌+◌, ◌≤◌, ◌<◌, ◌≡◌, ◌≢◌, refl, sym, ap, ◌∙◌, true, false, Option, none, some, String, List, [],
  ◌∷◌, Bool-cases, inl, inr, arith, ◌||◌,
}
use mmp_meridian.Prelude.Dict.{contains, insert, erase, lookup}
use mmp_meridian.Float.{Float, nought}
use mmp_meridian.Prelude.Run.{Returns, Returns-bind, Returns-weaken, ok, for_each}
use mmp_meridian.Exchange.{Order, Side}
use mmp_meridian.Orders.Monad.{Outside, Manager, acquire}
use mmp_meridian.Orders.Manager.{
  Settings, cancel_one, cancel_found, cancel_by_id, aged_ids, insert_order, remember, place_one,
  dry_id, sync_open_orders, cancel_stale_by_age, fake_order,
}
use mmp_meridian.Orders.Cache.{IsKeyed, contains-erase, erase-IsKeyed, erase_all}

module _ {R : Type 0} ⦃f : Float R⦄ (out : Outside R) (cfg : Settings R) (last : ℕ) where
  -- A dry run, with a database that accepts every write, in which no two ids that are drawn before the
  -- call `last` are the same.
  pub record IsDry : Type 0 where
    pub dry : cfg.dry_run ≡ true
    pub db : (n : ℕ) → out.db n ≡ true
    pub distinct :
        (n m : ℕ) → n < last → m < last → n ≢ m → dry_id (out.uuid n) ≢ dry_id (out.uuid m)

  -- The cache is keyed by the ids of its orders, and no id still to come before the call `last` stands
  -- in it.
  pub record IsReady (s : Manager R) : Type 0 where
    pub keyed : IsKeyed s.open_orders
    pub fresh :
        (n : ℕ) → s.count ≤ n → n < last → contains (dry_id (out.uuid n)) s.open_orders ≡ false

  module _ (d : IsDry) where
    open d use {dry, db, distinct}

    cancel_one_lem :
        (o : Order R) (s : Manager R)
        → Returns
            (λ _ s'. (s'.open_orders ≡ erase o.id s.open_orders) × (s.count ≤ s'.count))
            (cancel_one out cfg o s)
    unfolding cancel_one
    cancel_one_lem o s = simp (dry, db (s.count + 1)) (refl, omega arith)

    erase-IsReady :
        (k : String) {s s' : Manager R}
        → s'.open_orders ≡ erase k s.open_orders
        → s.count ≤ s'.count
        → IsReady s
        → IsReady s'
    erase-IsReady k {s} {s'} e c v = record {
      keyed = subst IsKeyed (sym e) (erase-IsKeyed k s.open_orders v.keyed);
      fresh = λ n h l.
          rw e (contains-erase k (dry_id (out.uuid n)) s.open_orders (v.fresh n (omega arith) l));
    }

    pub cancel_each_lem :
        (os : List (Order R)) (s : Manager R)
        → IsReady s
        → Returns
            (λ _ s'. (s'.open_orders ≡ erase_all os s.open_orders) × IsReady s')
            (for_each (cancel_one out cfg) os s)
    cancel_each_lem [] s v = (refl, v)
    cancel_each_lem (o ∷ os) s v =
        Returns-bind _ (cancel_one out cfg o) (λ _. for_each (cancel_one out cfg) os) s
          (cancel_one_lem o s)
          λ _ s' (e, c).
            Returns-weaken (for_each (cancel_one out cfg) os s')
              (cancel_each_lem os s' (erase-IsReady o.id e c v))
              λ _ s'' (e', w). (e' ∙ ap (erase_all os) e, w)

    cancel_found-IsReady :
        (found : Option (Order R)) (s : Manager R)
        → IsReady s
        → Returns (λ _ s'. IsReady s') (cancel_found out cfg found s)
    unfolding cancel_found
    cancel_found-IsReady none s v = v
    cancel_found-IsReady (some o) s v =
        Returns-weaken (cancel_one out cfg o s) (cancel_one_lem o s)
          λ _ s' (e', c). erase-IsReady o.id e' c v

    cancel_by_id-IsReady :
        (id : String) (s : Manager R)
        → IsReady s
        → Returns (λ _ s'. IsReady s') (cancel_by_id out cfg id s)
    unfolding cancel_by_id
    cancel_by_id-IsReady id s v = cancel_found-IsReady (lookup id s.open_orders) s v

    cancel_ids-IsReady :
        (ids : List String) (s : Manager R)
        → IsReady s
        → Returns (λ _ s'. IsReady s') (for_each (cancel_by_id out cfg) ids s)
    cancel_ids-IsReady [] s v = v
    cancel_ids-IsReady (id ∷ ids) s v =
        Returns-bind _ (cancel_by_id out cfg id) (λ _. for_each (cancel_by_id out cfg) ids) s
          (cancel_by_id-IsReady id s v) (λ _ s' w. cancel_ids-IsReady ids s' w)

    pub cancel_stale_by_age-IsReady :
        (s : Manager R) → IsReady s → Returns (λ _ s'. IsReady s') (cancel_stale_by_age out cfg s)
    unfolding cancel_stale_by_age
    cancel_stale_by_age-IsReady s v = elim (Bool-cases (f.le cfg.max_order_age_seconds nought)) [
      | inl e ↦ simp e v
      | inr e ↦ simp e (
          cancel_ids-IsReady (aged_ids out cfg (out.now s.count) s.open_orders s.order_created_at)
            (record s { count = s.count + 1 })
            (record { keyed = v.keyed; fresh = λ n h l. v.fresh n (omega arith) l }))
    ]

    pub sync_open_orders-IsReady :
        (s : Manager R) → IsReady s → Returns (λ _ s'. IsReady s') (sync_open_orders out cfg s)
    unfolding sync_open_orders
    sync_open_orders-IsReady s v =
        simp dry (record { keyed = v.keyed; fresh = λ n h l. v.fresh n (omega arith) l })

    insert_order_lem :
        (o : Order R) (s : Manager R)
        → Returns
            (λ _ s'. (s'.open_orders ≡ s.open_orders) × (s.count ≤ s'.count))
            (insert_order out cfg o s)
    unfolding insert_order
    insert_order_lem o s = simp (db s.count) (refl, omega arith)

    remember_lem :
        (o : Order R) (s : Manager R)
        → Returns
            (λ r s'.
              (r ≡ some o) × (s'.open_orders ≡ insert o.id o s.open_orders) × (s.count ≤ s'.count))
            (remember out cfg o s)
    unfolding remember
    remember_lem o s =
        let t = record s {
          open_orders = insert o.id o s.open_orders;
          order_created_at = insert o.id (out.now s.count) s.order_created_at;
          count = s.count + 1;
        } in
        Returns-bind _ (insert_order out cfg o) (λ _ u. (ok (some o), u)) t (insert_order_lem o t)
          λ _ s' (e, h). (refl, e, omega arith)

    -- What `place_one` does to a positive level.
    pub place_one_lem :
        (side : Side) (price amount : R) (s : Manager R)
        → f.le amount nought ≡ false
        → f.le price nought ≡ false
        → let fake =
            fake_order out cfg side price amount
              (dry_id (out.uuid (s.count + 1)))
              (out.now (s.count + 1 + 1)) in
          Returns
            (λ r s'.
              (r ≡ some fake)
              × (s'.open_orders ≡ insert fake.id fake s.open_orders)
              × (s.count + 2 ≤ s'.count))
            (place_one out cfg side price amount s)
    unfolding place_one
    place_one_lem side price amount s ha hp =
        simp (ha, hp, dry)
          (let id = dry_id (out.uuid (s.count + 1)) in
            let time = out.now (s.count + 1 + 1) in
            let fake = fake_order out cfg side price amount id time in
            let t = record s { count = s.count + 1 + 1 + 1; calls = acquire ∷ s.calls } in
            Returns-weaken (remember out cfg fake t) (remember_lem fake t)
              λ r s' (e, g, h). (e, g, omega arith))

    pub place_one_skips :
        (side : Side) (price amount : R) (s : Manager R)
        → (f.le amount nought || f.le price nought) ≡ true
        → place_one out cfg side price amount s ≡ (ok none, s)
    unfolding place_one
    place_one_skips side price amount s h = simp h
