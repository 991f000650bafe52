-- ===== src/Factory.antt =====
-- exchange/factory.py: which connector an exchange gets. A connector is the name of its class with the
-- name it is made for; the environment variable, lower-cased, and whether the compiled library was
-- built are arguments.
use mmp_meridian.Prelude.{
  ◌≡◌, refl, Bool, true, false, ◌&&◌, ◌||◌, Option, none, some, String, [], ◌∷◌, str_eq, str_eq_iff,
  if◌then◌else◌, arith,
}
use mmp_meridian.Prelude.Dict.{Dict, lookup, contains}

pub data Connector : Type 0 where
  ccxt ccxt_ws cpp : String → Connector

unfoldable pub ccxt_name_map : Dict String
ccxt_name_map =
    ("kucoin", "kucoin")
    ∷ ("gate", "gate")
    ∷ ("mexc", "mexc")
    ∷ ("kraken", "kraken")
    ∷ ("binance", "binance")
    ∷ []

-- Empty where the import fails.
unfoldable pub cpp_connector_map : Bool → Dict String
cpp_connector_map true =
    ("kucoin", "kucoin") ∷ ("gate", "gate") ∷ ("mexc", "mexc") ∷ ("kraken", "kraken") ∷ []
cpp_connector_map false = []

-- What the module finds when it is loaded: whether exchange/cpp_connector.py can be imported, whether
-- the library it wraps is there, and the environment variable.
pub record Build : Type 0 where
  pub imported : Bool
  pub library : Bool
  pub use_cpp_connector : String

abbrev pub cpp_available : Build → Bool
cpp_available b = b.imported && b.library

unfoldable pub want_cpp : Build → Option Bool → Bool
want_cpp b none =
    let env = b.use_cpp_connector in str_eq env "true" || str_eq env "1" || str_eq env "yes"
want_cpp b (some override) = override

-- `none` is the ValueError.
unfoldable make_ccxt_connector : String → Bool → Option Connector
make_ccxt_connector exchange_name use_websocket = elim (lookup exchange_name ccxt_name_map) [
  | none ↦ none
  | some id ↦ some (if use_websocket then ccxt_ws id else ccxt id)
]

unfoldable pub create_ws_connector : String → Option Connector
create_ws_connector exchange_name = elim (lookup exchange_name ccxt_name_map) [
  | none ↦ none
  | some id ↦ some (ccxt_ws id)
]

unfoldable pub create_connector : Build → String → Bool → Option Bool → Option Connector
unfolding want_cpp make_ccxt_connector
create_connector b exchange_name use_websocket use_cpp =
    let plain = make_ccxt_connector exchange_name use_websocket in
    if want_cpp b use_cpp
    then elim (lookup exchange_name (cpp_connector_map b.imported)) [
      | none ↦ plain
      | some class ↦ if cpp_available b then some (cpp class) else plain
    ]
    else plain

abbrev is_cpp : Connector → Bool
is_cpp (cpp name) = true
is_cpp (ccxt name) = false
is_cpp (ccxt_ws name) = false

abbrev pub name_of : Connector → String
name_of (cpp name) = name
name_of (ccxt name) = name
name_of (ccxt_ws name) = name

-- Each map names a connector after its exchange.
pub ccxt_named :
    (n : String) → lookup n ccxt_name_map ≡ (if contains n ccxt_name_map then some n else none)
unfolding ccxt_name_map
ccxt_named n = ground (
  arith,
  str_eq_iff "kucoin" n,
  str_eq_iff "gate" n,
  str_eq_iff "mexc" n,
  str_eq_iff "kraken" n,
  str_eq_iff "binance" n,
)

cpp_named :
    (b : Bool) (n : String)
    → lookup n (cpp_connector_map b)
      ≡ (if b && contains n (cpp_connector_map true) then some n else none)
unfolding cpp_connector_map
cpp_named true n =
    ground (
      arith,
      str_eq_iff "kucoin" n,
      str_eq_iff "gate" n,
      str_eq_iff "mexc" n,
      str_eq_iff "kraken" n,
    )
cpp_named false n = refl

cpp_known :
    (n : String) → contains n (cpp_connector_map true) ≡ true → contains n ccxt_name_map ≡ true
unfolding ccxt_name_map cpp_connector_map
cpp_known n h = ground (arith, h)

-- A connector is refused exactly for an exchange that is not one of the five, whatever is wanted and
-- built. A compiled connector is made exactly if it is wanted, built, and the exchange is one of the
-- four that have one; otherwise the call falls back to ccxt. The connector is for the exchange named.
pub create_connector_lem :
    (b : Build) (exchange_name : String) (use_websocket : Bool) (use_cpp : Option Bool)
    → let made = create_connector b exchange_name use_websocket use_cpp in
      (made ≡ none → contains exchange_name ccxt_name_map ≡ false)
      × (contains exchange_name ccxt_name_map ≡ false → made ≡ none)
      × ((c : Connector)
          → made ≡ some c
          → (name_of c ≡ exchange_name)
            × (is_cpp c ≡ (
                want_cpp b use_cpp
                && cpp_available b
                && contains exchange_name (cpp_connector_map true))))
unfolding create_connector make_ccxt_connector
create_connector_lem b exchange_name use_websocket use_cpp =
    ground
      (arith, ccxt_named exchange_name, cpp_named b.imported exchange_name, cpp_known exchange_name)
