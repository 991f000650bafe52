-- ===== src/Rebalancer/Tests.antt =====
-- The rebalancer on concrete inputs.
use mmp_meridian.Prelude.{refl, [], ◌∷◌, All}
use mmp_meridian.Prelude.Int.{ℤ}
use mmp_meridian.Prelude.Dict.{Dict}
use mmp_meridian.Float.Fixed.{fixed}
use mmp_meridian.Samples.{micro}
use mmp_meridian.Rebalancer.{Rebalancer, total_tokens, is_over, is_under, check_imbalance}
use mmp_meridian.Rebalancer.Shares.{HasShare, check_imbalance-HasShare}

abbrev rebalancer : Rebalancer ℤ
rebalancer = record { excess_threshold = micro 600_000; deficit_threshold = micro 200_000 }

abbrev balances : Dict ℤ
balances =
    ("kucoin", micro 700_000_000) ∷ ("gate", micro 200_000_000) ∷ ("mexc", micro 100_000_000) ∷ []

check_imbalance-HasShare_example :
    All
      (λ s.
        HasShare (λ a. a) balances (is_over rebalancer (total_tokens balances)) s.from_exchange
        × HasShare (λ a. a) balances (is_under rebalancer (total_tokens balances)) s.to_exchange)
      (check_imbalance (λ a. a) rebalancer balances)
check_imbalance-HasShare_example =
    check_imbalance-HasShare (λ a. a) rebalancer balances (refl, (refl, (refl, tt)))
