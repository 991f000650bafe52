-- ===== src/Orders/Placing.antt =====
-- What placing the missing levels achieves in a dry run.
use mathlib.Core.Path.{subst, sym}
use mmp_meridian.Prelude.{
  ℕ, ◌+◌, ◌≤◌, ◌<◌, ◌≡◌, refl, Bool, true, false, none, some, List, [], ◌∷◌, ◌++◌, ◌||◌, All, any,
  str_eq_iff, Bool-cases, inl, inr, arith,
}
use mmp_meridian.Prelude.Dict.{contains, insert, values, contains-insert, any-insert, All-insert}
use mmp_meridian.Float.{Float, nought}
use mmp_meridian.Exchange.{Order, Side}
use mmp_meridian.Prelude.Run.{Returns, Returns-bind, Returns-weaken}
use mmp_meridian.Orders.Monad.{Outside, Manager}
use mmp_meridian.Orders.Manager.{Settings, place_one, place_all, dry_id}
use mmp_meridian.Orders.Cache.{IsKeyed, insert-IsKeyed}
use mmp_meridian.Orders.Steps.{IsDry, IsReady, place_one_lem, place_one_skips}

module _ {R : Type 0} ⦃f : Float R⦄ where
  open f use {le}

  -- What placing the levels `ls` has made of the open orders of `s`.
  pub record Placed (ls : List (Side × R × R)) (s s' : Manager R) : Type 0 where
    pub kept :
        (test : Order R → Bool)
        → any test (values s.open_orders) ≡ true
        → any test (values s'.open_orders) ≡ true
    pub clean :
        (test : Order R → Bool)
        → All (λ (l : Side × R × R). (o : Order R) → o.price ≡ l.1 → test o ≡ true) ls
        → All (λ o. test o ≡ true) (values s.open_orders)
        → All (λ o. test o ≡ true) (values s'.open_orders)
    pub there :
        All
          (λ (l : Side × R × R).
            le l.2 nought ≡ false
            → le l.1 nought ≡ false
            → (test : Order R → Bool) → ((o : Order R) → o.price ≡ l.1 → test o ≡ true)
            → any test (values s'.open_orders) ≡ true)
          ls

  Placed-cons :
      {l : Side × R × R} {ls : List (Side × R × R)} {s t u : Manager R}
      → Placed (l ∷ []) s t
      → Placed ls t u
      → Placed (l ∷ ls) s u
  Placed-cons p q = record {
    kept = λ test h. q.kept test (p.kept test h);
    clean = λ test h all. q.clean test h.1 (p.clean test (h.0, tt) all);
    there = (λ ha hp test h. q.kept test (p.there.0 ha hp test h), q.there);
  }

  module _ (out : Outside R) (cfg : Settings R) (last : ℕ) (d : IsDry out cfg last) where
    insert_one :
        (side : Side) (price amount : R) (s s' : Manager R) (new : Order R)
        → IsReady out cfg last s
        → new.id ≡ dry_id (out.uuid (s.count + 1))
        → s.count + 1 < last
        → new.price ≡ price
        → s'.open_orders ≡ insert new.id new s.open_orders
        → s.count + 2 ≤ s'.count
        → IsReady out cfg last s' × Placed ((side, price, amount) ∷ []) s s'
    insert_one side price amount s s' new v ei l ep e c =
        let unknown : contains new.id s.open_orders ≡ false =
          rw ei (v.fresh (s.count + 1) (omega arith) l) in
        (
          record {
            keyed = subst IsKeyed (sym e) (insert-IsKeyed new s.open_orders unknown v.keyed);
            fresh = λ n h b. rw e (
                ground (
                  arith,
                  contains-insert new.id (dry_id (out.uuid n)) new s.open_orders,
                  str_eq_iff new.id (dry_id (out.uuid n)),
                  d.distinct (s.count + 1) n l b (omega arith),
                  v.fresh n (omega arith) b,
                ));
          },
          record {
            kept =
                λ test h. rw (e, any-insert test new.id new s.open_orders unknown) (ground arith);
            clean = λ test h all. rw e (All-insert _ new.id new s.open_orders (h.0 new ep) all);
            there = (
              λ ha hp test h.
                  rw (e, any-insert test new.id new s.open_orders unknown, h new ep) refl,
              tt,
            );
          },
        )

    -- The state is ready, if it does not come after the call `last`.
    abbrev Ready : Manager R → Type 0
    Ready s = s.count ≤ last → IsReady out cfg last s

    place_one-Placed :
        (side : Side) (price amount : R) (s : Manager R)
        → Ready s
        → Returns
            (λ _ s'.
              (s.count ≤ s'.count)
              × (s'.count ≤ last
                  → IsReady out cfg last s' × Placed ((side, price, amount) ∷ []) s s'))
            (place_one out cfg side price amount s)
    place_one-Placed side price amount s v =
        elim (Bool-cases (le amount nought || le price nought)) [
          | inl e ↦ rw (place_one_skips out cfg last d side price amount s e) (
            omega arith,
            λ h. (
              v h,
              record {
                kept = λ _ h. h;
                clean = λ _ _ h. h;
                there = (λ ha hp. absurd (ground arith), tt);
              },
            ),
          )
          | inr e ↦
              Returns-weaken (place_one out cfg side price amount s)
                (place_one_lem out cfg last d side price amount s (ground arith) (ground arith))
                λ _ s' (_, g, c). (
                  omega (arith, c),
                  λ h.
                      insert_one side price amount s s' _ (v (omega (arith, c, h))) refl
                        (omega (arith, c, h)) refl g c,
                )
        ]

    -- What is placed, if the last call does not come after the call `last`.
    pub place_all-Placed :
        (ls : List (Side × R × R)) (placed : List (Order R)) (s : Manager R)
        → Ready s
        → Returns
            (λ _ s'.
              (s.count ≤ s'.count) × (s'.count ≤ last → IsReady out cfg last s' × Placed ls s s'))
            (place_all out cfg ls placed s)
    unfolding place_all
    place_all-Placed [] placed s v =
        (omega arith, λ h. (v h, record { kept = λ _ h. h; clean = λ _ _ h. h; there = tt }))
    place_all-Placed ((side, price, amount) ∷ ls) placed s v =
        Returns-bind _ (place_one out cfg side price amount)
          (λ order. place_all out cfg ls (elim order [ none ↦ placed | some o ↦ placed ++ o ∷ [] ]))
          s (place_one-Placed side price amount s v)
          λ order s' (c, k).
            Returns-weaken
              (place_all out cfg ls (elim order [ none ↦ placed | some o ↦ placed ++ o ∷ [] ]) s')
              (place_all-Placed ls _ s' (λ h. (k h).0))
              λ _ s'' (c', k'). (
                omega (arith, c, c'),
                λ h. ((k' h).0, Placed-cons (k (omega (arith, c', h))).1 (k' h).1),
              )
