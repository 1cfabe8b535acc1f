-- ===== src/Examples/ToySdk.antt =====
-- A small model of the crate: floats are integers, prices are numbers, and a cross quantity is one
-- or two units.
use quantoxide.Float.{Float}
use quantoxide.Prelude.{
  Bool, Option, Result, err, false, if◌then◌else◌, leb, none, ok, some, true, ℕ, ◌*◌, ◌+◌, ◌-◌, ◌/◌,
  ◌==◌,
}
use quantoxide.Prelude.Int.{leb_ℤ, ltb_ℤ, negsuc, pos, pos_part, ℤ, ◌+ℤ◌, ◌-ℤ◌}
use quantoxide.Sdk.{CrossExposure, Sdk, TradeSide, buy, neutral, running, sell}

abbrev clamp_price : ℤ → ℕ
clamp_price z = pos_part z

abbrev toy_float : Float
toy_float = record {
  F64 = ℤ;
  f64_le = leb_ℤ;
  f64_lt = ltb_ℤ;
  f64_zero = pos 0;
  f64_one = pos 1;
  f64_hundred = pos 100;
  f64_minimum = negsuc 999999999;
  f64_maximum = pos 1000000000;
  f64_max = λ a b. if leb_ℤ a b then b else a;
  f64_min = λ a b. if leb_ℤ a b then a else b;
  f64_add = λ a b. a +ℤ b;
  f64_sub = λ a b. a -ℤ b;
  f64_mul = λ a b. pos (pos_part a * pos_part b);
  f64_div = λ a b. a;
  f64_neg = λ a. pos 0 -ℤ a;
  f64_floor = λ a. a;
  f64_round = λ a. a;
  f64_as_i64 = λ a. a;
}

-- One unit, or two.
abbrev pub units : Bool → ℕ
units true = 1
units false = 2

abbrev pub add_units : Bool → Bool → Result Bool (Unit {0})
add_units true true = ok false
add_units _ _ = err tt

abbrev pub sub_units : Bool → Bool → Result Bool (Unit {0})
sub_units false true = ok true
sub_units _ _ = err tt

abbrev pub units_of : ℕ → Result Bool (Unit {0})
units_of n = if n == 1 then ok true else if n == 2 then ok false else err tt

abbrev pub ToyExposure : Type 0
ToyExposure = TradeSide × Bool × ℕ

abbrev exposure_of : Option ToyExposure → CrossExposure ToyExposure
exposure_of none = neutral
exposure_of (some e) = running e

abbrev params_of : CrossExposure ToyExposure → Option ToyExposure
params_of neutral = none
params_of (running e) = some e

abbrev toy_pl : TradeSide → ℕ → ℕ → ℕ → ℤ
toy_pl buy q entry price = pos (q * price) -ℤ pos (q * entry)
toy_pl sell q entry price = pos (q * entry) -ℤ pos (q * price)

abbrev toy_liquidation : TradeSide → ℕ → ℕ
toy_liquidation buy entry = entry - 20
toy_liquidation sell entry = entry + 20

abbrev pub toy_sdk : Sdk
toy_sdk = record {
  float = toy_float;
  Price = ℕ;
  PriceValidationError = Unit {0};
  price_le = leb;
  price_as_f64 = pos;
  price_minimum = 1;
  price_maximum = 1000000;
  price_round = λ x. ok (clamp_price x);
  price_round_up = λ x. ok (clamp_price x);
  price_round_down = λ x. ok (clamp_price x);
  price_bounded = clamp_price;
  Percentage = ℕ;
  PercentageCapped = ℕ;
  percentage = λ p. p;
  capped_le = leb;
  capped_as_f64 = pos;
  apply_gain = λ p g. ok (p + p * g / 100);
  apply_discount = λ p d. ok (p - p * d / 100);
  sats_per_btc = pos 100000000;
  Margin = ℕ;
  margin_as_u64 = λ m. m;
  margin_as_i64 = pos;
  margin_try_sub = λ m z. some (m - pos_part z);
  OrderQuantity = Bool;
  quantity_as_f64 = λ q. pos (units q);
  quantity_as_u64 = units;
  Leverage = ℕ;
  leverage_minimum = 1;
  leverage_try_calculate = λ q m p. ok 1;
  TradeSize = Bool;
  ClientId = ℕ;
  TradeValidationError = Unit {0};
  evaluate_open_trade_params =
      λ side size lev price sl tp fee. ok (size, 10, toy_liquidation side price, 1, 1);
  evaluate_new_stoploss = λ side liq tp price sl. ok tt;
  evaluate_added_margin = λ side q price m amount. ok (m + amount, 1, price);
  evaluate_cash_in = λ side q m price sl market amount. ok (price, m - amount, 1, price, sl);
  est_liquidation_from_leverage = λ side q price lev. toy_liquidation side price;
  evaluate_order_fee = λ fee q price. 1;
  estimate_pl = λ side q entry price. toy_pl side (units q) entry price;
  CrossQuantity = Bool;
  CrossQuantityValidationError = Unit {0};
  cross_of_order = λ q. q;
  cross_as_u64 = units;
  cross_as_i64 = λ q. pos (units q);
  cross_as_f64 = λ q. pos (units q);
  cross_try_from = units_of;
  cross_try_add = add_units;
  cross_try_sub = sub_units;
  CrossLeverage = ℕ;
  cross_leverage_minimum = 1;
  CrossExposureRunning = ToyExposure;
  exposure_side = λ e. e.0;
  exposure_quantity = λ e. e.1;
  exposure_entry_price = λ e. e.2;
  exposure_liquidation = λ e. toy_liquidation e.0 e.2;
  exposure_running_margin = λ e. 10;
  exposure_maintenance_margin = λ e. 1;
  CrossExposureValidationError = Unit {0};
  cross_exposure_new = λ m l params. ok (exposure_of params);
  as_running_params = params_of;
  evaluate_cross_order_fee = λ fee q price. 1;
  estimate_cross_pl = λ side q entry price. toy_pl side (units q) entry price;
  aggregate_cross_entry_price = λ q p r s. p;
}

instance pub toy_sdk_instance : Sdk
toy_sdk_instance = toy_sdk
