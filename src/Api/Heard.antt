-- ===== src/Api/Heard.antt =====
-- What a client of the live feed gets.
use mathlib.Core.Path.{ap₂, subst}
use mathlib.Core.List.{append_assoc, append-nil}
use mmp_meridian.Prelude.{
  ℕ, ◌≤◌, ◌≡◌, ◌≢◌, refl, sym, ◌∙◌, ap, Bool, true, false, ◌==◌, some, List, [], ◌∷◌, ◌++◌, length,
  length-append, by_test, Bool-cases, inl, inr, All, if◌then◌else◌, arith,
}
use mmp_meridian.Api.Feed.{
  Client, LiveFeed, Event, subscribed, unsubscribed, delivered, broadcasted, emitted_raw, maxsize,
  is_full, push, offered, next, subscribe, unsubscribe, broadcast, deliver, handle, run,
}

module _ {M : Type 0} where
  -- The broadcasts of a run.
  abbrev pub broadcasts : List (Event M) → List M
  broadcasts [] = []
  broadcasts (broadcasted m ∷ es) = m ∷ broadcasts es
  broadcasts (emitted_raw m ∷ es) = broadcasts es
  broadcasts (subscribed k ∷ es) = broadcasts es
  broadcasts (unsubscribed k ∷ es) = broadcasts es
  broadcasts (delivered k ∷ es) = broadcasts es

  -- The event neither begins nor ends the connection of the client `n`, nor has a name that `EventType`
  -- lacks.
  abbrev IsPlain : ℕ → Event M → Type 0
  IsPlain n (subscribed k) = k ≢ n
  IsPlain n (unsubscribed k) = k ≢ n
  IsPlain n (delivered k) = Unit
  IsPlain n (broadcasted m) = Unit
  IsPlain n (emitted_raw m) = ⊥

  -- What the client has been sent and what waits for it.
  abbrev heard : Client M → List M
  heard c = c.sent ++ c.queue

  -- From `c` to `c'` the messages `ms` were broadcast: the client has got the first of them, all of them
  -- while it was registered, and its queue is no longer than its size.
  pub record Heard (ms : List M) (c c' : Client M) : Type 0 where
    pub got : List M
    pub lost : List M
    pub parts : ms ≡ got ++ lost
    pub heard_lem : heard c' ≡ heard c ++ got
    pub none_lost : c'.registered ≡ true → (c.registered ≡ true) × (lost ≡ [])
    pub dropped : c.registered ≡ false → (c'.registered ≡ false) × (got ≡ [])
    pub queue_le : length c'.queue ≤ maxsize

  nothing : (c : Client M) → length c.queue ≤ maxsize → Heard [] c c
  nothing c h = record {
    got = [];
    lost = [];
    parts = refl;
    heard_lem = sym (append-nil (heard c));
    none_lost = λ e. (e, refl);
    dropped = λ e. (e, refl);
    queue_le = h;
  }

  -- One after the other: what a client that was dropped in between got of the second is nothing.
  then_Heard :
      (ms ns : List M) (c d e : Client M) → Heard ms c d → Heard ns d e → Heard (ms ++ ns) c e
  then_Heard ms ns c d e h k = elim (Bool-cases d.registered) [
    | inl r ↦
        let (alive, none_lost) = h.none_lost r in
        let all_got = h.parts ∙ ap (λ l. h.got ++ l) none_lost ∙ append-nil h.got in
        record {
          got = h.got ++ k.got;
          lost = k.lost;
          parts = ap₂ ◌++◌ all_got k.parts ∙ sym (append_assoc h.got k.got k.lost);
          heard_lem =
              k.heard_lem ∙ ap (λ x. x ++ k.got) h.heard_lem ∙ append_assoc (heard c) h.got k.got;
          none_lost = λ r'. (alive, (k.none_lost r').1);
          dropped = λ r'. absurd (ground arith);
          queue_le = k.queue_le;
        }
    | inr r ↦
        let (gone, nothing_got) = k.dropped r in
        record {
          got = h.got;
          lost = h.lost ++ ns;
          parts = ap (λ x. x ++ ns) h.parts ∙ append_assoc h.got h.lost ns;
          heard_lem =
              k.heard_lem ∙ ap (λ x. heard d ++ x) nothing_got ∙ append-nil (heard d) ∙ h.heard_lem;
          none_lost = λ r'. absurd (ground arith);
          dropped = λ r'. (gone, (h.dropped r').1);
          queue_le = k.queue_le;
        }
  ]

  lost_all :
      (m : M) (c : Client M) (b : Bool)
      → b ≡ false
      → length c.queue ≤ maxsize
      → Heard (m ∷ []) c (record c { registered = b })
  lost_all m c b e l = record {
    got = [];
    lost = m ∷ [];
    parts = refl;
    heard_lem = sym (append-nil (heard c));
    none_lost = λ r. absurd (ground arith);
    dropped = λ r. (e, refl);
    queue_le = l;
  }

  offered-Heard : (m : M) (c : Client M) → length c.queue ≤ maxsize → Heard (m ∷ []) c (offered m c)
  unfolding offered
  offered-Heard m c l =
      by_test (Heard (m ∷ []) c) c.registered
        (if is_full c then record c { registered = false } else push m c) c
        (λ r.
          by_test (Heard (m ∷ []) c) (is_full c) (record c { registered = false }) (push m c)
            (λ _. lost_all m c false refl l)
            (λ room. record {
              got = m ∷ [];
              lost = [];
              parts = refl;
              heard_lem = sym (append_assoc c.sent c.queue (m ∷ []));
              none_lost = λ _. (r, refl);
              dropped = λ r'. absurd (ground arith);
              queue_le = ground (arith, room, length-append c.queue (m ∷ []));
            }))
        (λ r. lost_all m c c.registered r l)

  next-Heard :
      (registered : Bool) (queue sent : List M)
      → let c : Client M = record { registered = registered; queue = queue; sent = sent } in
        length queue ≤ maxsize → Heard [] c (next c)
  next-Heard registered [] sent l = nothing _ l
  next-Heard registered (m ∷ rest) sent l = record {
    got = [];
    lost = [];
    parts = refl;
    heard_lem = append_assoc sent (m ∷ []) rest ∙ sym (append-nil (sent ++ m ∷ rest));
    none_lost = λ e. (e, refl);
    dropped = λ e. (e, refl);
    queue_le = omega (arith, l);
  }

  abbrev sort_of : Event M → List M
  sort_of e = broadcasts (e ∷ [])

  -- The client `n` after one event.
  one_Heard :
      (n : ℕ) (e : Event M) (feed : LiveFeed M) (c : Client M)
      → IsPlain n e
      → feed n ≡ some c
      → length c.queue ≤ maxsize
      → (d : Client M) × (handle e feed n ≡ some d) × Heard (sort_of e) c d
  unfolding handle subscribe unsubscribe broadcast deliver
  one_Heard n (subscribed k) feed c h e l = (c, ground (arith, h, e), nothing c l)
  one_Heard n (unsubscribed k) feed c h e l = (c, ground (arith, h, e), nothing c l)
  one_Heard n (delivered k) feed c h e l = elim (Bool-cases (k == n)) [
    | inl t ↦ (next c, ground (arith, t, e), next-Heard c.registered c.queue c.sent l)
    | inr t ↦ (c, ground (arith, t, e), nothing c l)
  ]
  one_Heard n (broadcasted m) feed c h e l = (offered m c, rw e refl, offered-Heard m c l)
  one_Heard n (emitted_raw m) feed c h e l = absurd h

  broadcasts-cons :
      (e : Event M) (es : List (Event M)) → broadcasts (e ∷ es) ≡ sort_of e ++ broadcasts es
  broadcasts-cons (subscribed k) es = refl
  broadcasts-cons (unsubscribed k) es = refl
  broadcasts-cons (delivered k) es = refl
  broadcasts-cons (broadcasted m) es = refl
  broadcasts-cons (emitted_raw m) es = refl

  -- A client with no more than a hundred messages waiting, over any events that neither begin nor end
  -- its connection and whose names `EventType` has: what it has been sent and what waits for it grow by
  -- the broadcasts in their order, by all of them while the feed knows it. Once its queue was full at a
  -- broadcast it gets none any more, though its connection goes on. Its queue never holds more than a
  -- hundred.
  pub run-Heard :
      (n : ℕ) (es : List (Event M)) (feed : LiveFeed M) (c : Client M)
      → All (IsPlain n) es
      → feed n ≡ some c
      → length c.queue ≤ maxsize
      → (d : Client M) × (run es feed n ≡ some d) × Heard (broadcasts es) c d
  unfolding run
  run-Heard n [] feed c h e l = (c, e, nothing c l)
  run-Heard n (x ∷ es) feed c (h, hs) e l =
      let (d, e', v) = one_Heard n x feed c h e l in
      let (d', e'', v') = run-Heard n es (handle x feed) d hs e' v.queue_le in
      (
        d',
        e'',
        subst (λ ms. Heard ms c d') (sym (broadcasts-cons x es))
            (then_Heard (sort_of x) (broadcasts es) c d d' v v'),
      )
