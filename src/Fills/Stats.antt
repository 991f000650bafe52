-- ===== src/Fills/Stats.antt =====
-- What the paper trader counts.
use mmp_meridian.Prelude.{
  ℕ, suc, ◌+◌, ◌≡◌, ◌≤◌, Bool, true, Option, none, some, List, [], ◌∷◌, ◌++◌, keep, length,
  length-append, arith, map, sym, ap, ◌∙◌,
}
use mathlib.Core.Path.{subst}
use mathlib.Core.List.{append_assoc, append-nil}
use mmp_meridian.Prelude.Deque.{length-popleft, length-append_deque}
use mmp_meridian.Float.{Float}
use mmp_meridian.Exchange.{Fill}
use mmp_meridian.Fills.Simulator.{OrderBook, SimulatedFill, simulate, mid}
use mmp_meridian.Fills.Paper.{
  PaperTradingStats, PaperTrader, Feeds, fill_rate_1m, or_nought, update_stats, persist_fill,
  emit_fill_event, record_fills, on_book_update, poll, poll_loop, db_fill,
}

module _ {A : Type 0} where
  length-keep-le : (test : A → Bool) (xs : List A) → length (keep test xs) ≤ length xs
  length-keep-le test [] = ground arith
  length-keep-le test (x ∷ xs) = ground (arith, length-keep-le test xs)

module _ {R : Type 0} ⦃f : Float R⦄ where
  -- The timestamps kept are at most 1000, and no more than the fills.
  abbrev pub IsValid : PaperTradingStats R → Type 0
  IsValid s = (length s.fill_timestamps ≤ 1000) × (length s.fill_timestamps ≤ s.total_fills)

  update_stats-IsValid :
      (s : PaperTradingStats R) (a : SimulatedFill R) → IsValid s → IsValid (update_stats s a)
  unfolding update_stats
  update_stats-IsValid s a (h, h') = (
    ground (arith, h, length-append_deque 1000 s.fill_timestamps a.filled_at h),
    ground (
      arith,
      h',
      length-append s.fill_timestamps (a.filled_at ∷ []),
      length-popleft (s.fill_timestamps ++ a.filled_at ∷ []),
    ),
  )

  told-stats :
      (e : Feeds R) (a : SimulatedFill R) (t : PaperTrader R)
      → (emit_fill_event e a (persist_fill e a t)).stats ≡ t.stats
  unfolding emit_fill_event persist_fill
  told-stats e a t = ground arith

  told-exchange :
      (e : Feeds R) (a : SimulatedFill R) (t : PaperTrader R)
      → (emit_fill_event e a (persist_fill e a t)).exchange ≡ t.exchange
  unfolding emit_fill_event persist_fill
  told-exchange e a t = ground arith

  told-fills :
      (e : Feeds R) (a : SimulatedFill R) (t : PaperTrader R)
      → ((row : Fill R) → e.stored row ≡ true)
      → (emit_fill_event e a (persist_fill e a t)).fills ≡ t.fills ++ db_fill e t.exchange a ∷ []
  unfolding emit_fill_event persist_fill
  told-fills e a t h = ground (arith, h (db_fill e t.exchange a))

  record_fills-IsValid :
      (e : Feeds R) (made : List (SimulatedFill R)) (t : PaperTrader R)
      → IsValid t.stats
      → IsValid (record_fills e made t).stats
  unfolding record_fills
  record_fills-IsValid e [] t h = h
  record_fills-IsValid e (a ∷ made) t h =
      let told = emit_fill_event e a (persist_fill e a t) in
      record_fills-IsValid e made (record told { stats = update_stats told.stats a })
        (subst (λ s. IsValid (update_stats s a)) (sym (told-stats e a t))
          (update_stats-IsValid t.stats a h))

  poll-IsValid :
      (e : Feeds R) (fee_rate : R) (clock : ℕ → R) (book : Option (OrderBook R)) (t : PaperTrader R)
      → IsValid t.stats
      → IsValid (poll e fee_rate clock book t).stats
  unfolding poll on_book_update
  poll-IsValid e fee_rate clock none t h = h
  poll-IsValid e fee_rate clock (some book) t h =
      let made = simulate fee_rate clock t.open_orders_ref book (or_nought (mid book)) in
      ground (arith, h, record_fills-IsValid e made t h)

  poll_loop-IsValid :
      (e : Feeds R) (fee_rate : R) (turns : List ((ℕ → R) × Option (OrderBook R)))
      (t : PaperTrader R)
      → IsValid t.stats
      → IsValid (poll_loop e fee_rate turns t).stats
  unfolding poll_loop
  poll_loop-IsValid e fee_rate [] t h = h
  poll_loop-IsValid e fee_rate ((clock, book) ∷ turns) t h =
      poll_loop-IsValid e fee_rate turns (poll e fee_rate clock book t)
        (poll-IsValid e fee_rate clock book t h)

  rate :
      (now : R) (s : PaperTradingStats R)
      → IsValid s
      → (fill_rate_1m now s ≤ 1000) × (fill_rate_1m now s ≤ s.total_fills)
  unfolding fill_rate_1m
  rate now s (h, h') =
      let fewer = length-keep-le (λ ts. f.le (f.sub now (f.decimal 60 0)) ts) s.fill_timestamps in
      (omega (arith, h, fewer), omega (arith, h', fewer))

  counted :
      (s : PaperTradingStats R) (a : SimulatedFill R) (n : ℕ)
      → (update_stats s a).total_fills + n ≡ s.total_fills + suc n
  unfolding update_stats
  counted s a n = omega arith

  -- If the database takes the fills, every fill is counted and each has its row, in their order.
  record_fills_lem :
      (e : Feeds R) (made : List (SimulatedFill R)) (t : PaperTrader R)
      → ((row : Fill R) → e.stored row ≡ true)
      → ((record_fills e made t).stats.total_fills ≡ t.stats.total_fills + length made)
        × ((record_fills e made t).fills ≡ t.fills ++ map (db_fill e t.exchange) made)
  unfolding record_fills
  record_fills_lem e [] t h = (ground arith, sym (append-nil t.fills))
  record_fills_lem e (a ∷ made) t h =
      let told = emit_fill_event e a (persist_fill e a t) in
      let (n, rows) =
        record_fills_lem e made (record told { stats = update_stats told.stats a }) h in
      (
        n
            ∙ ap (λ s. (update_stats s a).total_fills + length made) (told-stats e a t)
            ∙ counted t.stats a (length made),
        rows
            ∙ ap (λ x. told.fills ++ map (db_fill e x) made) (told-exchange e a t)
            ∙ ap (λ xs. xs ++ map (db_fill e t.exchange) made) (told-fills e a t h)
            ∙ append_assoc t.fills (db_fill e t.exchange a ∷ []) (map (db_fill e t.exchange) made),
      )

  -- If the timestamps kept are at first at most a thousand and no more than the fills counted,
  -- then after any number of books the fills per minute are at most a thousand and at most the
  -- fills counted.
  poll_loop-fill_rate_1m :
      (e : Feeds R) (fee_rate now : R) (turns : List ((ℕ → R) × Option (OrderBook R)))
      (t : PaperTrader R)
      → IsValid t.stats
      → (fill_rate_1m now (poll_loop e fee_rate turns t).stats ≤ 1000)
        × (fill_rate_1m now (poll_loop e fee_rate turns t).stats
            ≤ (poll_loop e fee_rate turns t).stats.total_fills)
  poll_loop-fill_rate_1m e fee_rate now turns t h =
      rate now (poll_loop e fee_rate turns t).stats (poll_loop-IsValid e fee_rate turns t h)
