-- ===== src/Rebalancer.antt =====
-- core/rebalancer.py: which transfers between exchanges it suggests. The shares that the text of a
-- suggestion formats are its fields; `round2` is Python's rounding to two decimals.
pub mod Shares
mod Tests
use mmp_meridian.Prelude.{
  ℕ, ◌+◌, Bool, not, ◌&&◌, String, List, [], ◌∷◌, ◌++◌, map, keep, length, if◌then◌else◌,
}
use mmp_meridian.Prelude.Dict.{Dict, values}
use mmp_meridian.Float.{Float, nought, unity, sum_from}

pub record Rebalancer (R : Type 0) : Type 0 where
  pub excess_threshold : R
  pub deficit_threshold : R

pub record Suggestion (R : Type 0) : Type 0 where
  pub from_exchange : String
  pub to_exchange : String
  suggested_amount : R
  over_share : R
  under_share : R

module _ {R : Type 0} ⦃f : Float R⦄ where
  open f use {add, sub, mul, div, lt, le, decimal}

  abbrev pub total_tokens : Dict R → R
  total_tokens balances = sum_from nought (values balances)

  abbrev pub is_over : Rebalancer R → R → R → Bool
  is_over r total tokens = lt r.excess_threshold (div tokens total)

  abbrev pub is_under : Rebalancer R → R → R → Bool
  is_under r total tokens =
      not (is_over r total tokens) && lt (div tokens total) r.deficit_threshold

  -- Enough to bring the overweight exchange near an equal share.
  abbrev pub amount_from : R → R → R → R
  amount_from total target_share tokens =
      mul (mul (sub (div tokens total) target_share) total) (decimal 5 1)

  abbrev pub suggestion : (R → R) → R → R → String × R → String × R → Suggestion R
  suggestion round2 total target_share over under = record {
    from_exchange = over.0;
    to_exchange = under.0;
    suggested_amount = round2 (amount_from total target_share over.1);
    over_share = div over.1 total;
    under_share = div under.1 total;
  }

  -- The suggestions from one overweight exchange.
  unfoldable pub suggest_from :
      (R → R) → R → R → String × R → List (String × R) → List (Suggestion R)
  suggest_from round2 total target_share over [] = []
  suggest_from round2 total target_share over (under ∷ rest) =
      let others = suggest_from round2 total target_share over rest in
      if lt nought (amount_from total target_share over.1)
      then suggestion round2 total target_share over under ∷ others
      else others

  unfoldable pub suggest :
      (R → R) → R → R → List (String × R) → List (String × R) → List (Suggestion R)
  unfolding suggest_from
  suggest round2 total target_share [] underweight = []
  suggest round2 total target_share (over ∷ rest) underweight =
      suggest_from round2 total target_share over underweight
      ++ suggest round2 total target_share rest underweight

  unfoldable pub check_imbalance : (R → R) → Rebalancer R → Dict R → List (Suggestion R)
  unfolding suggest
  check_imbalance round2 r balances =
      let total = total_tokens balances in
      let overweight = keep (λ b. is_over r total b.1) balances in
      let underweight = keep (λ b. is_under r total b.1) balances in
      if le total nought
      then []
      else suggest round2 total (div unity (decimal (length balances) 0)) overweight underweight
