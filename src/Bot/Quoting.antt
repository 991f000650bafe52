-- ===== src/Bot/Quoting.antt =====
-- A tick that may quote leaves the orders of its grid.
use mathlib.Core.Path.{subst}
use mmp_meridian.Prelude.{ℕ, ◌≤◌, ◌≡◌, sym, Option, some}
use mmp_meridian.Prelude.Run.{Result, ok, raised, Returns, ◌>>=◌}
use mmp_meridian.Float.{Float, IsOrdered, IsMonotone}
use mmp_meridian.Exchange.{Balance}
use mmp_meridian.Inventory.{update, skew_factor}
use mmp_meridian.Orders.Monad.{Manager, M}
use mmp_meridian.Orders.Manager.{diff_and_repost}
use mmp_meridian.Orders.Steps.{IsDry, IsReady}
use mmp_meridian.Orders.Coverage.{Covers, diff_and_repost-Done}
use mmp_meridian.Regime.Parameters.{MmParameters}
use mmp_meridian.Regime.Master.{GlobalState}
use mmp_meridian.Bot.State.{Answers, Parts, Bot, B, managed}
use mmp_meridian.Bot.Quotes.{quote_of}
use mmp_meridian.Bot.Tick.{admit, work, work_if, report, tick}
use mmp_meridian.Bot.Frame.{Same, report-Same}
use mmp_meridian.Bot.Admission.{Admits, admit-Admits}

module _ {R A C : Type 0} (P : Manager R → Type 0) where
  managed_step :
      (r : Result A) (m : Manager R) (g : A → B R C) (c : Bot R)
      → Returns (λ _ m'. P m') (r, m)
      → ((a : A) (d : Bot R) → Same d (g a d).1)
      → P
          (elim r as (λ _. Result C × Bot R) [
            | ok a ↦ g a (record c { order_manager = m })
            | raised ↦ (raised, record c { order_manager = m })
          ]).1.order_manager
  managed_step (ok a) m g c h k = subst P (sym (k a (record c { order_manager = m })).0) h
  managed_step raised m g c h k = absurd h

  -- What a call of the order manager leaves, later steps that leave it alone keep.
  managed_then :
      (m : M R A) (g : A → B R C) (c : Bot R)
      → Returns (λ _ m'. P m') (m c.order_manager)
      → ((a : A) (d : Bot R) → Same d (g a d).1)
      → P ((managed m >>= g) c).1.order_manager
  managed_then m g c = managed_step (m c.order_manager).0 (m c.order_manager).1 g c

module _ {R : Type 0} ⦃f : Float R⦄ (out : Answers R) (p : Parts R) (o : IsOrdered R)
    (m : IsMonotone R) (last : ℕ) (d : IsDry out.orders p.orders last) where
  abbrev Posted : GlobalState R → MmParameters R → R → Manager R → Type 0
  Posted s mm skew m' =
      m'.count ≤ last → IsReady out.orders p.orders last m' × Covers (quote_of p s mm skew).grid m'

  work-Posted :
      (s : GlobalState R) (mm : MmParameters R) (balance : Balance R) (c : Bot R)
      → IsReady out.orders p.orders last c.order_manager
      → Posted s mm
          (skew_factor (update balance c.inventory))
          (work out p s mm balance c).1.order_manager
  unfolding work
  work-Posted s mm balance c v =
      let c' = record c { inventory = update balance c.inventory } in
      let q = quote_of p s mm (skew_factor c'.inventory) in
      managed_then (Posted s mm (skew_factor c'.inventory))
        (diff_and_repost out.orders p.orders q.grid) (report out p s balance q) c'
        (diff_and_repost-Done out.orders p.orders last d o m q.grid c.order_manager v)
        (report-Same out p s balance q)

  abbrev followed :
      GlobalState R
      → Result (Option (MmParameters R × Balance R)) × Bot R
      → Result (Unit {0}) × Bot R
  followed s r = elim r.0 as (λ _. Result (Unit {0}) × Bot R) [
    | ok found ↦ work_if out p s found r.1
    | raised ↦ (raised, r.1)
  ]

  -- On an ordered, monotone arithmetic, in a dry run whose database accepts the writes of the order
  -- manager, from a cache that is keyed by its ids: a tick that gets past its checks, makes its last
  -- call before the call `last`, and draws until then no uuid whose eight kept digits repeat another
  -- one's or an id in the cache, leaves open orders that are all near a price of the grid computed
  -- from the state, the parameters and the skew, with one near each level of positive price and amount,
  -- even if a later step of the tick raises. The cache is again as it was required.
  pub tick_posts :
      (s : GlobalState R) (b c : Bot R) (mm : MmParameters R) (balance : Balance R)
      → IsReady out.orders p.orders last b.order_manager
      → admit out p s b ≡ (ok (some (mm, balance)), c)
      → (tick out p s b).1.order_manager.count ≤ last
      → let q = quote_of p s mm (skew_factor (update balance c.inventory)) in
        let b' = (tick out p s b).1 in
        IsReady out.orders p.orders last b'.order_manager × Covers q.grid b'.order_manager
  unfolding tick
  tick_posts s b c mm balance v e h =
      let kept : c.order_manager ≡ b.order_manager =
        (subst (Returns (Admits out p s b)) e (admit-Admits out p s b)).0 in
      subst
        (λ r. Posted s mm (skew_factor (update balance c.inventory)) (followed s r).1.order_manager)
        (sym e) (work-Posted s mm balance c (subst (IsReady out.orders p.orders last) (sym kept) v))
        h
