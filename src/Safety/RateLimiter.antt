-- ===== src/Safety/RateLimiter.antt =====
-- safety/rate_limiter.py: the token bucket. The lock makes one `acquire` run to its end before the
-- next begins, so a call is one function. The readings of the monotonic clock are arguments: the
-- first refill's, and the one after the sleep.
use mmp_meridian.Prelude.{ℕ, ◌≡◌, refl, true, false, Option, none, some, if◌then◌else◌, arith}
use mmp_meridian.Float.{Float, ◌≼◌, IsOrdered, IsMonotone, nought, unity, min}
use mmp_meridian.Float.Order.{min-le_left, le_min, le_of_not-lt}
use mmp_meridian.Float.Signs.{sub_nonneg, le-add, mul_nonneg}

pub record RateLimiter (R : Type 0) : Type 0 where
  pub max : R
  pub tokens : R
  pub last_refill : R

module _ {R : Type 0} ⦃f : Float R⦄ where
  open f use {add, sub, mul, div, lt, decimal}

  unfoldable pub create : ℕ → R → RateLimiter R
  create max_per_second now = record {
    max = decimal max_per_second 0;
    tokens = decimal max_per_second 0;
    last_refill = now;
  }

  unfoldable refill : R → RateLimiter R → RateLimiter R
  refill now s = record s {
    tokens = min s.max (add s.tokens (mul (sub now s.last_refill) s.max));
    last_refill = now;
  }

  -- The new state, and how long the call slept.
  unfoldable pub acquire : R → R → RateLimiter R → Option R × RateLimiter R
  unfolding refill
  acquire now later s =
      let s₁ = refill now s in
      if lt s₁.tokens unity
      then (
        some (div (sub unity s₁.tokens) s.max),
        (let s₂ = refill later s₁ in record s₂ { tokens = sub s₂.tokens unity }),
      )
      else (none, record s₁ { tokens = sub s₁.tokens unity })

  -- The bucket holds at most `max` tokens, and `max` admits a request.
  pub record IsBounded (s : RateLimiter R) : Type 0 where
    pub unity_le_max : unity ≼ s.max
    pub tokens_le_max : s.tokens ≼ s.max

  module _ (o : IsOrdered R) (m : IsMonotone R) where
    refill_lem :
        (now : R) (s : RateLimiter R)
        → ((refill now s).tokens ≼ s.max) × ((refill now s).max ≡ s.max)
    unfolding refill
    refill_lem now s = (min-le_left o s.max _, refl)

    le-refill :
        (now : R) (s : RateLimiter R)
        → nought ≼ s.max
        → s.last_refill ≼ now
        → s.tokens ≼ s.max
        → s.tokens ≼ (refill now s).tokens
    unfolding refill
    le-refill now s p h b =
        le_min o s.max _ s.tokens b
          (le-add o m s.tokens _ (mul_nonneg o m _ s.max (sub_nonneg o m now s.last_refill h) p))

    sub_unity_le : (a b : R) → a ≼ b → sub a unity ≼ b
    sub_unity_le a b h =
        ground (arith, m.sub_mono a b unity nought h (o.decimal_le 0 0 1 0 refl), m.sub-zero b)

    -- On an ordered, monotone arithmetic a call keeps the bucket at its capacity or below,
    -- whatever the clock says, if it admits a request.
    acquire-IsBounded :
        (now later : R) (s : RateLimiter R) → IsBounded s → IsBounded (acquire now later s).1
    unfolding acquire
    acquire-IsBounded now later s b =
        let s₁ = refill now s in
        let s₂ = refill later s₁ in
        ground (
          arith,
          refill_lem now s,
          refill_lem later s₁,
          sub_unity_le s₁.tokens s.max,
          sub_unity_le s₂.tokens s.max,
        )

    -- On an ordered, monotone arithmetic and a bucket at its capacity or below, with a clock that
    -- runs on: a call that does not sleep leaves no debt in the bucket; a call sleeps exactly if
    -- the first refill leaves less than one token, for the time the missing part takes, and the
    -- refill after the sleep takes no token away; if one token is there then, no debt is left.
    acquire_pays :
        (now later : R) (s : RateLimiter R)
        → IsBounded s
        → now ≼ later
        → let s₁ = refill now s in
          let s₂ = refill later s₁ in
          let (slept, s') = acquire now later s in
          (lt s₁.tokens unity ≡ false → (slept ≡ none) × (nought ≼ s'.tokens))
          × (lt s₁.tokens unity ≡ true
              → (slept ≡ some (div (sub unity s₁.tokens) s.max))
                × (s'.tokens ≡ sub s₂.tokens unity)
                × (s₁.tokens ≼ s₂.tokens)
                × (unity ≼ s₂.tokens → nought ≼ s'.tokens))
    unfolding acquire
    acquire_pays now later s b h =
        let s₁ = refill now s in
        let s₂ = refill later s₁ in
        ground (
          arith,
          refill_lem now s,
          le-refill later s₁,
          o.le_trans nought unity s.max (o.decimal_le 0 0 1 0 refl),
          le_of_not-lt o s₁.tokens unity,
          sub_nonneg o m s₁.tokens unity,
          sub_nonneg o m s₂.tokens unity,
        )
