-- ===== src/Connectors/Books.antt =====
-- What the consumer of a watch loop sees.
use mmp_meridian.Prelude.{
  ℕ, ◌≤◌, ◌≡◌, refl, true, none, some, String, List, [], ◌∷◌, All, keep, keep-All, length, by_test,
  ap, ◌∙◌, arith,
}
use mmp_meridian.Prelude.Sorting.{IsSorted, sorted-All, sorted-IsSorted}
use mmp_meridian.Float.{Float, ◌≼◌, IsOrdered, nought}
use mmp_meridian.Float.Order.{le_of_lt, le_of_not-lt}
use mmp_meridian.Regime.Master.{Queue, popleft}
use mmp_meridian.Fills.Simulator.{Level, OrderBook}
use mmp_meridian.Connectors.Streams.{
  RawBook, Update, came, network_error, other_error, cancelled, taken, Watch, put_latest, turn,
  step, run, first, latest, parse_book, WsConnector, Event, book_update, ticker_update, connect_ws,
  disconnect_ws, handle, handle_all, mapped,
}

module _ {A : Type 0} where
  -- Neither a new item, nor a reading.
  abbrev IsQuiet : Update A → Type 0
  IsQuiet (came x) = ⊥
  IsQuiet taken = ⊥
  IsQuiet network_error = Unit
  IsQuiet other_error = Unit
  IsQuiet cancelled = Unit

  put_latest-items :
      (x : A) (n : ℕ) (xs : List A)
      → n ≡ 1
      → length xs ≤ 1
      → (put_latest x (record { maxsize = n; items = xs })).items ≡ x ∷ []
  unfolding put_latest
  put_latest-items x n [] e h = ground (arith, e)
  put_latest-items x n (y ∷ []) e h = ground (arith, e)
  put_latest-items x n (y ∷ z ∷ xs) e h = absurd (omega (arith, h))

  put_latest-maxsize : (x : A) (q : Queue A) → (put_latest x q).maxsize ≡ q.maxsize
  unfolding put_latest
  put_latest-maxsize x q = ground arith

  -- The queue of size 1 holds at most one item, which is as `P` says.
  abbrev pub IsSingle : (A → Type 0) → Queue A → Type 0
  IsSingle P q = (q.maxsize ≡ 1) × (length q.items ≤ 1) × All P q.items

  abbrev Brings : (A → Type 0) → Update A → Type 0
  Brings P (came x) = P x
  Brings P network_error = Unit
  Brings P other_error = Unit
  Brings P cancelled = Unit
  Brings P taken = Unit

  popleft-IsSingle :
      (P : A → Type 0) (n : ℕ) (xs : List A)
      → IsSingle P (record { maxsize = n; items = xs })
      → IsSingle P (popleft (record { maxsize = n; items = xs }))
  popleft-IsSingle P n [] h = h
  popleft-IsSingle P n (x ∷ xs) (e, l, (p, ps)) = (e, omega (arith, l), ps)

  put_latest-IsSingle :
      (P : A → Type 0) (x : A) (q : Queue A) → P x → IsSingle P q → IsSingle P (put_latest x q)
  put_latest-IsSingle P x q p (e, l, ps) =
      let one = put_latest-items x q.maxsize q.items e l in
      (put_latest-maxsize x q ∙ e, rw one (omega arith), rw one (p, tt))

  step-IsSingle :
      (P : A → Type 0) (u : Update A) (w : Watch A)
      → Brings P u
      → IsSingle P w.queue
      → IsSingle P (step u w).queue
  unfolding step turn
  step-IsSingle P (came x) w p h =
      by_test (λ w. IsSingle P w.queue) w.running
        (record w { retries = 0; queue = put_latest x w.queue }) w
        (λ _. put_latest-IsSingle P x w.queue p h) (λ _. h)
  step-IsSingle P network_error w p h = ground (arith, h)
  step-IsSingle P other_error w p h = ground (arith, h)
  step-IsSingle P cancelled w p h = ground (arith, h)
  step-IsSingle P taken w p h = popleft-IsSingle P w.queue.maxsize w.queue.items h

  run_quiet : (us : List (Update A)) (w : Watch A) → All IsQuiet us → (run us w).queue ≡ w.queue
  unfolding run step turn
  run_quiet [] w h = refl
  run_quiet (network_error ∷ us) w (h, hs) = run_quiet us (step network_error w) hs ∙ ground arith
  run_quiet (other_error ∷ us) w (h, hs) = run_quiet us (step other_error w) hs ∙ ground arith
  run_quiet (cancelled ∷ us) w (h, hs) = run_quiet us (step cancelled w) hs ∙ ground arith
  run_quiet (came x ∷ us) w (h, hs) = absurd h
  run_quiet (taken ∷ us) w (h, hs) = absurd h

  step-came :
      (x : A) (w : Watch A)
      → w.running ≡ true
      → IsSingle (λ _. Unit {0}) w.queue
      → (step (came x) w).queue.items ≡ x ∷ []
  unfolding step turn
  step-came x w e (n, l, _) = rw e (put_latest-items x w.queue.maxsize w.queue.items n l)

  popleft_last :
      (n : ℕ) (xs : List A) (x : A)
      → xs ≡ x ∷ []
      → (popleft (record { maxsize = n; items = xs })).items ≡ []
  popleft_last n [] x e = refl
  popleft_last n (y ∷ []) x e = refl
  popleft_last n (y ∷ z ∷ xs) x e = absurd (ground arith)

  -- The consumer of a running loop gets the item that came last, whatever was waiting in the queue of
  -- size 1 and whatever errors have followed, once: after a reading there is none until the next comes.
  pub run-latest :
      (x : A) (us later : List (Update A)) (w : Watch A)
      → w.running ≡ true
      → IsSingle (λ _. Unit {0}) w.queue
      → All IsQuiet us
      → All IsQuiet later
      → (latest (run us (step (came x) w)) ≡ some x)
        × (latest (run later (step taken (run us (step (came x) w)))) ≡ none)
  unfolding latest step turn
  run-latest x us later w e single h k =
      let w' = run us (step (came x) w) in
      let w'' = step taken w' in
      let held : w'.queue.items ≡ x ∷ [] =
        ap (λ q. q.items) (run_quiet us (step (came x) w) h) ∙ step-came x w e single in
      let left : (run later w'').queue.items ≡ [] =
        ap (λ q. q.items) (run_quiet later w'' k)
        ∙ popleft_last w'.queue.maxsize w'.queue.items x held in
      (ap first held, ap first left)

module _ {R : Type 0} ⦃f : Float R⦄ where
  abbrev IsPositive : Level R → Type 0
  IsPositive l = f.lt nought l.1 ≡ true

  -- What the fill simulator takes for granted of a book.
  pub record IsBook (b : OrderBook R) : Type 0 where
    pub bids_fall : IsSorted (λ x y. y.0 ≼ x.0) b.bids
    pub asks_rise : IsSorted (λ x y. x.0 ≼ y.0) b.asks
    pub bids_positive : All IsPositive b.bids
    pub asks_positive : All IsPositive b.asks

  module _ (o : IsOrdered R) where
    parse_book-IsBook :
        (exchange_name : String) (now : R) (raw : RawBook R)
        → IsBook (parse_book exchange_name now raw)
    unfolding parse_book
    parse_book-IsBook exchange_name now raw =
        let sized = λ (l : Level R). f.lt nought l.1 in
        record {
          bids_fall =
              sorted-IsSorted _ (λ x y. y.0 ≼ x.0) (λ x y z p q. o.le_trans z.0 y.0 x.0 q p)
                (λ x y. le_of_lt o y.0 x.0) (λ x y. le_of_not-lt o y.0 x.0) (keep sized raw.bids);
          asks_rise =
              sorted-IsSorted _ (λ x y. x.0 ≼ y.0) (λ x y z. o.le_trans x.0 y.0 z.0)
                (λ x y. le_of_lt o x.0 y.0) (λ x y. le_of_not-lt o x.0 y.0) (keep sized raw.asks);
          bids_positive = sorted-All _ IsPositive _ (keep-All sized raw.bids);
          asks_positive = sorted-All _ IsPositive _ (keep-All sized raw.asks);
        }

    mapped-Brings :
        (exchange_name : String) (now : R) (u : Update (RawBook R))
        → Brings IsBook (mapped (parse_book exchange_name now) u)
    mapped-Brings exchange_name now (came raw) = parse_book-IsBook exchange_name now raw
    mapped-Brings exchange_name now network_error = tt
    mapped-Brings exchange_name now other_error = tt
    mapped-Brings exchange_name now cancelled = tt
    mapped-Brings exchange_name now taken = tt

    -- On ordered numbers, from a connector whose queue of books has the size 1 and holds at most one
    -- book, each such: whatever comes over both streams, whatever fails, is connected again or taken,
    -- the queue holds at most one book, whose bids fall, whose asks rise, and whose quantities are all
    -- positive.
    pub handle_all-IsSingle :
        (exchange_name : String) (es : List (Event R)) (c : WsConnector R)
        → IsSingle IsBook c.books.queue
        → IsSingle IsBook (handle_all exchange_name es c).books.queue
    unfolding handle_all handle
    handle_all-IsSingle exchange_name [] c h = h
    handle_all-IsSingle exchange_name (e ∷ es) c h =
        handle_all-IsSingle exchange_name es (handle exchange_name e c) (one e)
      where
        one : (e : Event R) → IsSingle IsBook (handle exchange_name e c).books.queue
        one (book_update u now) =
            step-IsSingle IsBook (mapped (parse_book exchange_name now) u) c.books
              (mapped-Brings exchange_name now u) h
        one (ticker_update u now) = h
        one connect_ws = h
        one disconnect_ws = h
