-- ===== src/Samples/Outside.antt =====
-- What the tests of the order manager and of the bot let the exchange answer.
use Prim.Native.String.{String}
use Prim.Native.String as Text
use mmp_meridian.Prelude.{
  ℕ, zero, suc, ◌%◌, ◌/◌, ◌<◌, ◌≡◌, ◌≢◌, ◌==◌, ltb, refl, Bool, Bool-cases, inl, inr, true, false,
  not, ◌&&◌, ◌||◌, some, none, List, [], ◌∷◌, if◌then◌else◌, arith, str_eq, str_eq_iff,
}
use mmp_meridian.Prelude.Int.{ℤ, pos}
use mmp_meridian.Float.Fixed.{fixed}
use mmp_meridian.Samples.{micro, order}
use mmp_meridian.Exchange.{Order, sell}
use mmp_meridian.Orders.Monad.{Outside}
use mmp_meridian.Orders.Manager.{Settings, dry_id}
use mmp_meridian.Orders.Steps.{IsDry}

abbrev digit : ℕ → String
digit n =
    if n == 0
    then "0"
    else if n == 1
    then "1"
    else if n == 2
    then "2"
    else if n == 3
    then "3"
    else if n == 4
    then "4"
    else if n == 5
    then "5"
    else if n == 6
    then "6"
    else if n == 7
    then "7"
    else if n == 8
    then "8"
    else if n == 9
    then "9"
    else if n == 10
    then "a"
    else if n == 11
    then "b"
    else if n == 12
    then "c"
    else if n == 13
    then "d"
    else if n == 14
    then "e"
    else "f"

-- The two last digits of a number in base 16 before thirty more.
unfoldable pub uuid : ℕ → String
uuid n =
    Text.◌++◌ (Text.◌++◌ (digit (n / 16 % 16)) (digit (n % 16))) "4f6a0c4d9e8b7a6f5e4d3c2b1a0f9e"

-- The exchange lists one order, and refuses nothing.
abbrev pub listed : List (Order ℤ)
listed = order "live" sell 26_000 1_000_000 ∷ []

unfoldable pub outside : Outside ℤ
unfolding uuid
outside = record {
  now = λ n. pos n;
  uuid = uuid;
  db = λ n. true;
  fetch_open_orders = λ n. some listed;
  create_limit_order = λ n side price amount. none;
  cancel_order = λ n id. true;
  cancel_all_orders = λ n. true;
}

abbrev pub dry : Settings ℤ
dry = record {
  exchange = "kucoin";
  symbol = "ALKIMI/USDT";
  dry_run = true;
  max_order_age_seconds = micro 300_000_000;
}

abbrev pub live : Settings ℤ
live = record dry { dry_run = false }

-- A test of every number below `n`.
unfoldable pub below : (P : ℕ → Bool) → ℕ → Bool
below P zero = true
below P (suc n) = below P n && P n

pub below-at : (P : ℕ → Bool) (n i : ℕ) → i < n → below P n ≡ true → P i ≡ true
unfolding below
below-at P zero i h e = absurd (omega (arith, h))
below-at P (suc n) i h e = elim (Bool-cases (ltb i n)) [
  | inl t ↦ ground (arith, t, e, below-at P n i (ground (arith, t)))
  | inr t ↦ let same : i ≡ n = ground (arith, t, h) in rw same (ground (arith, e))
]

-- The dry run makes fewer calls than this.
abbrev pub last : ℕ
last = 48

abbrev differ : ℕ → ℕ → Bool
differ n m = (n == m) || not (str_eq (dry_id (uuid n)) (dry_id (uuid m)))

all_differ : below (λ n. below (differ n) last) last ≡ true
unfolding below uuid dry_id
all_differ = refl

distinct_id :
    (n m : ℕ) → n < last → m < last → n ≢ m → dry_id (outside.uuid n) ≢ dry_id (outside.uuid m)
unfolding outside
distinct_id n m h k d e =
    let apart : differ n m ≡ true =
      below-at (differ n) last m k (below-at (λ n. below (differ n) last) last n h all_differ) in
    ground (arith, apart, d, str_eq_iff (dry_id (uuid n)) (dry_id (uuid m)), e)

pub is_dry : IsDry outside dry last
unfolding outside
is_dry = record { dry = refl; db = λ n. refl; distinct = distinct_id }
