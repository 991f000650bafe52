-- ===== src/Bot/Ingestion.antt =====
-- What `_ingest_fills` makes of the time of the last fill.
use mmp_meridian.Prelude.{◌+◌, ◌≡◌, sym, Option, none, some, List, [], ◌∷◌, All, arith}
use mathlib.Core.Path.{subst}
use mmp_meridian.Prelude.Run.{Result, ok, raised, for_each}
use mmp_meridian.Float.{Float, ◌≼◌, IsOrdered}
use mmp_meridian.Float.Order.{le_of_lt, le_of_not-lt}
use mmp_meridian.Exchange.{Fill}
use mmp_meridian.Bot.State.{Answers, Parts, Bot, fetch_fills, acquire}
use mmp_meridian.Bot.Tick.{note_fill, noted, ingest_fills}

module _ {R : Type 0} ⦃f : Float R⦄ where
  -- `a` is no later than the time that is noted.
  abbrev Reached : R → Option R → Type 0
  Reached a none = ⊥
  Reached a (some last) = a ≼ last

  abbrev Forward : Option R → Option R → Type 0
  Forward none later = Unit
  Forward (some a) later = Reached a later

module _ {R : Type 0} ⦃f : Float R⦄ (out : Answers R) (p : Parts R) (o : IsOrdered R) where
  Forward-trans : (a b c : Option R) → Forward a b → Forward b c → Forward a c
  Forward-trans none b c h k = tt
  Forward-trans (some x) none c h k = absurd h
  Forward-trans (some x) (some y) none h k = absurd k
  Forward-trans (some x) (some y) (some z) h k = o.le_trans x y z h k

  Forward-refl : (a : Option R) → Forward a a
  Forward-refl none = tt
  Forward-refl (some x) = o.le_refl x

  noted-Forward :
      (last : Option R) (ts : R)
      → Forward last (noted out p last ts) × Reached ts (noted out p last ts)
  noted-Forward none ts = (tt, o.le_refl ts)
  noted-Forward (some last) ts =
      ground (arith, o.le_refl ts, o.le_refl last, le_of_lt o last ts, le_of_not-lt o last ts)

  -- From `last` to `later`, over some fills, of which all are stored if the call returned.
  abbrev pub Ingested : List (Fill R) → Option R → Result (Unit {0}) → Option R → Type 0
  Ingested fills last r later =
      Forward last later × (r ≡ ok tt → All (λ a. Reached a.timestamp later) fills)

  note_fill-Ingested :
      (a : Fill R) (b : Bot R)
      → let (r, c) = note_fill out p a b in
        Forward b.last_fill_ts c.last_fill_ts × (r ≡ ok tt → Reached a.timestamp c.last_fill_ts)
  unfolding note_fill
  note_fill-Ingested a b =
      ground (arith, noted-Forward b.last_fill_ts a.timestamp, Forward-refl b.last_fill_ts)

  abbrev All-Ingested : List (Fill R) → Bot R → Type 0
  All-Ingested fills b =
      let (r, b') = for_each (note_fill out p) fills b in
      Ingested fills b.last_fill_ts r b'.last_fill_ts

  then-Ingested :
      (a : Fill R) (fills : List (Fill R)) (last : Option R) (r : Result (Unit {0})) (c : Bot R)
      → ((b : Bot R) → All-Ingested fills b)
      → Forward last c.last_fill_ts
      → (r ≡ ok tt → Reached a.timestamp c.last_fill_ts)
      → let (r', b') : Result (Unit {0}) × Bot R = elim r [
        | ok _ ↦ for_each (note_fill out p) fills c
        | raised ↦ (raised, c)
      ] in
        Ingested (a ∷ fills) last r' b'.last_fill_ts
  then-Ingested a fills last (ok x) c rec h k =
      let (on, rest) = rec c in
      let later = (for_each (note_fill out p) fills c).1.last_fill_ts in
      (
        Forward-trans last c.last_fill_ts later h on,
        λ done. (
          Forward-trans (some a.timestamp) c.last_fill_ts later (k (ground arith)) on,
          rest done,
        ),
      )
  then-Ingested a fills last raised c rec h k = (h, λ done. absurd (ground arith))

  note_fills-Ingested : (fills : List (Fill R)) (b : Bot R) → All-Ingested fills b
  note_fills-Ingested [] b = (Forward-refl b.last_fill_ts, λ e. tt)
  note_fills-Ingested (a ∷ fills) b =
      let (h, k) = note_fill-Ingested a b in
      then-Ingested a fills b.last_fill_ts (note_fill out p a b).0 (note_fill out p a b).1
        (note_fills-Ingested fills) h k

  -- On ordered numbers: after a first fill has been seen, the time of the last fill never goes back,
  -- even if the database refuses one; and if the exchange answers and the ingestion returns, no fill
  -- of the answer is later than the time that is noted.
  pub ingest_fills_lem :
      (b : Bot R) (last : R) (fills : List (Fill R))
      → b.last_fill_ts ≡ some last
      → out.fetch_fills (b.count + 1) (f.add last (f.decimal 1 3)) ≡ some fills
      → let (r, b') = ingest_fills out p b in Ingested fills b.last_fill_ts r b'.last_fill_ts
  unfolding ingest_fills
  ingest_fills_lem b last fills e h =
      let since = f.add last (f.decimal 1 3) in
      let c = record b { count = b.count + 1 + 1; calls = fetch_fills since ∷ acquire ∷ b.calls } in
      let same : ingest_fills out p b ≡ for_each (note_fill out p) fills c = ground (arith, e, h) in
      subst (λ x. Ingested fills b.last_fill_ts x.0 x.1.last_fill_ts) (sym same)
        (note_fills-Ingested fills c)
