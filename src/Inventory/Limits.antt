-- ===== src/Inventory/Limits.antt =====
-- The position limits and the rebalance trigger of the inventory tracker.
use mmp_meridian.Prelude.{◌≡◌, false, ◌&&◌, arith}
use mmp_meridian.Float.{Float, ◌≼◌, IsOrdered, nought}
use mmp_meridian.Exchange.{buy, sell}
use mmp_meridian.Inventory.{Tracker, is_position_limit_reached}

module _ {R : Type 0} ⦃f : Float R⦄ where
  open f use {mul, lt, le}

  -- With some limit configured a buy is blocked exactly if the USD limit is positive and the position
  -- reaches it, and a sell exactly if the lower token limit is positive and the balance is at or below
  -- it.
  is_position_limit_reached_lem :
      (tokens price : R) (t : Tracker R)
      → (le t.max_position_usd nought && le t.max_position_tokens nought) ≡ false
      → (is_position_limit_reached buy tokens price t
          ≡ (lt nought t.max_position_usd && le t.max_position_usd (mul tokens price)))
        × (is_position_limit_reached sell tokens price t
            ≡ (lt nought t.min_position_tokens && le tokens t.min_position_tokens))
  unfolding is_position_limit_reached
  is_position_limit_reached_lem tokens price t h = ground arith

  -- On ordered numbers, without a positive USD limit no buy is ever blocked, however small the
  -- configured limit on tokens is and however many tokens are held.
  max_position_tokens_ignored :
      (o : IsOrdered R) (tokens price : R) (t : Tracker R)
      → t.max_position_usd ≼ nought
      → is_position_limit_reached buy tokens price t ≡ false
  unfolding is_position_limit_reached
  max_position_tokens_ignored o tokens price t h =
      ground (arith, o.lt-eq-not-le nought t.max_position_usd)
