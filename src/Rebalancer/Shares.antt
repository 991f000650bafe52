-- ===== src/Rebalancer/Shares.antt =====
-- Between which exchanges a transfer is suggested.
use mmp_meridian.Prelude.{
  ◌≡◌, Bool, true, false, some, String, List, [], ◌∷◌, keep, All, All-append, All-weaken, length,
  str_eq_iff, by_test, arith,
}
use mmp_meridian.Prelude.Dict.{Dict, lookup, contains, str_eq_refl}
use mmp_meridian.Float.{Float, unity, nought}
use mmp_meridian.Rebalancer.{
  Rebalancer, Suggestion, total_tokens, is_over, is_under, amount_from, suggestion, suggest_from,
  suggest, check_imbalance,
}

module _ {A : Type 0} where
  -- No key stands twice.
  abbrev IsDict : Dict A → Type 0
  IsDict [] = Unit {0}
  IsDict ((k, v) ∷ d) = (contains k d ≡ false) × IsDict d

  lookup_after :
      (k : String) (v : A) (d e : Dict A)
      → contains k e ≡ false
      → All (λ b. lookup b.0 d ≡ some b.1) e
      → All (λ b. lookup b.0 ((k, v) ∷ d) ≡ some b.1) e
  lookup_after k v d [] n h = tt
  lookup_after k v d ((j, w) ∷ e) n (h, hs) = (
    ground (arith, n, h, str_eq_iff k j, str_eq_iff j k),
    lookup_after k v d e (ground (arith, n)) hs,
  )

  lookup_each : (d : Dict A) → IsDict d → All (λ b. lookup b.0 d ≡ some b.1) d
  lookup_each [] h = tt
  lookup_each ((k, v) ∷ d) (n, h) =
      (ground (arith, str_eq_refl k), lookup_after k v d d n (lookup_each d h))

  All-keep :
      (P : String × A → Type 0) (test : String × A → Bool) (d : Dict A)
      → All P d
      → All (λ b. P b × (test b ≡ true)) (keep test d)
  All-keep P test [] h = tt
  All-keep P test (b ∷ d) (h, hs) =
      by_test (All (λ b. P b × (test b ≡ true))) (test b) (b ∷ keep test d) (keep test d)
        (λ e. ((h, e), All-keep P test d hs)) (λ e. All-keep P test d hs)

module _ {R : Type 0} ⦃f : Float R⦄ (round2 : R → R) where
  open f use {div, lt, decimal}

  module _ (P Q : String → Type 0) (total target_share : R) where
    abbrev Joins : Suggestion R → Type 0
    Joins s = P s.from_exchange × Q s.to_exchange

    suggest_from-Joins :
        (over : String × R) (underweight : List (String × R))
        → P over.0
        → All (λ b. Q b.0) underweight
        → All Joins (suggest_from round2 total target_share over underweight)
    unfolding suggest_from
    suggest_from-Joins over [] p h = tt
    suggest_from-Joins over (under ∷ rest) p (h, hs) =
        let others = suggest_from round2 total target_share over rest in
        by_test (All Joins) (lt nought (amount_from total target_share over.1))
          (suggestion round2 total target_share over under ∷ others) others
          (λ e. ((p, h), suggest_from-Joins over rest p hs))
          (λ e. suggest_from-Joins over rest p hs)

    suggest-Joins :
        (overweight underweight : List (String × R))
        → All (λ b. P b.0) overweight
        → All (λ b. Q b.0) underweight
        → All Joins (suggest round2 total target_share overweight underweight)
    unfolding suggest
    suggest-Joins [] underweight h k = tt
    suggest-Joins (over ∷ rest) underweight (h, hs) k =
        All-append Joins (suggest_from round2 total target_share over underweight) _
          (suggest_from-Joins over underweight h k) (suggest-Joins rest underweight hs k)

  -- An exchange holds tokens whose share passes a test.
  abbrev pub HasShare : Dict R → (R → Bool) → String → Type 0
  HasShare balances test name =
      (tokens : R) × (lookup name balances ≡ some tokens) × (test tokens ≡ true)

  -- If no exchange stands twice, every transfer that is suggested leaves an exchange whose share
  -- of the tokens exceeds the upper threshold, and reaches one whose share lies below the lower
  -- threshold.
  pub check_imbalance-HasShare :
      (r : Rebalancer R) (balances : Dict R)
      → IsDict balances
      → let total = total_tokens balances in
        All
          (λ s.
            HasShare balances (is_over r total) s.from_exchange
            × HasShare balances (is_under r total) s.to_exchange)
          (check_imbalance round2 r balances)
  unfolding check_imbalance
  check_imbalance-HasShare r balances h =
      let total = total_tokens balances in
      let found = lookup_each balances h in
      let some_share : (test : R → Bool)
          → All (λ b. HasShare balances test b.0) (keep (λ b. test b.1) balances) =
        λ test.
          All-weaken _ _ (keep (λ b. test b.1) balances) (λ b (l, t). (b.1, l, t))
            (All-keep _ (λ b. test b.1) balances found) in
      let over = HasShare balances (is_over r total) in
      let under = HasShare balances (is_under r total) in
      let share = div unity (decimal (length balances) 0) in
      let overweight = keep (λ b. is_over r total b.1) balances in
      let underweight = keep (λ b. is_under r total b.1) balances in
      by_test (All (λ s. over s.from_exchange × under s.to_exchange)) (f.le total nought) []
        (suggest round2 total share overweight underweight) (λ e. tt)
        (λ e.
          suggest-Joins over under total share overweight underweight (some_share (is_over r total))
            (some_share (is_under r total)))
