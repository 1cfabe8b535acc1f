-- ===== src/Trade/OrderRequest.antt =====
-- The order requests of src/trade/core.rs.
pub mod Validation
use quantoxide.Prelude.{Bool, Option, Result, err, if◌then◌else◌, none, not, ok, some, ◌>>=◌}
use quantoxide.Sdk.{Sdk, TradeSide, buy, sell}
use quantoxide.Trade.Stoploss.{Stoploss, fixed, trailing}
use quantoxide.Trade.Trigger.{price_lt}

module _ ⦃sdk : Sdk⦄ where
  open sdk use {Price, percentage, OrderQuantity, Leverage, TradeSize, ClientId}

  pub data IsolatedOrderValidationError : Type 0 where
    invalid_risk_bounds : TradeSide → Price → Price → IsolatedOrderValidationError

  pub record IsolatedOrderRequest : Type 0 where
    pub side : TradeSide
    pub size : TradeSize
    pub leverage : Leverage
    pub stoploss : Option Stoploss
    pub takeprofit : Option Price
    pub client_id : Option ClientId

  unfoldable pub isolated_market : TradeSide → TradeSize → Leverage → IsolatedOrderRequest
  isolated_market side size leverage = record {
    side = side;
    size = size;
    leverage = leverage;
    stoploss = none;
    takeprofit = none;
    client_id = none;
  }

  unfoldable pub risk_is_ordered : TradeSide → Price → Price → Bool
  risk_is_ordered buy stoploss takeprofit = price_lt stoploss takeprofit
  risk_is_ordered sell stoploss takeprofit = price_lt takeprofit stoploss

  unfoldable pub validate_fixed_risk_ordering :
      TradeSide → Option Stoploss → Option Price → Result (Unit {0}) IsolatedOrderValidationError
  validate_fixed_risk_ordering side (some (fixed stoploss)) (some takeprofit) =
      if not (risk_is_ordered side stoploss takeprofit)
      then err (invalid_risk_bounds side stoploss takeprofit)
      else ok tt
  validate_fixed_risk_ordering side (some (trailing percentage)) takeprofit = ok tt
  validate_fixed_risk_ordering side (some (fixed stoploss)) none = ok tt
  validate_fixed_risk_ordering side none takeprofit = ok tt

  unfoldable pub with_stoploss :
      IsolatedOrderRequest → Stoploss → Result IsolatedOrderRequest IsolatedOrderValidationError
  with_stoploss r stoploss = do
    checked ← validate_fixed_risk_ordering r.side (some stoploss) r.takeprofit
    ok (record r { stoploss = some stoploss })

  unfoldable pub with_takeprofit :
      IsolatedOrderRequest → Price → Result IsolatedOrderRequest IsolatedOrderValidationError
  with_takeprofit r takeprofit = do
    checked ← validate_fixed_risk_ordering r.side r.stoploss (some takeprofit)
    ok (record r { takeprofit = some takeprofit })

  unfoldable pub isolated_with_client_id : IsolatedOrderRequest → ClientId → IsolatedOrderRequest
  isolated_with_client_id r client_id = record r { client_id = some client_id }

  pub record CrossOrderRequest : Type 0 where
    pub side : TradeSide
    pub quantity : OrderQuantity
    pub client_id : Option ClientId

  pub cross_market : TradeSide → OrderQuantity → CrossOrderRequest
  cross_market side quantity = record { side = side; quantity = quantity; client_id = none }

  pub cross_with_client_id : CrossOrderRequest → ClientId → CrossOrderRequest
  cross_with_client_id r client_id = record r { client_id = some client_id }

  -- The request of `isolated_order_market_long` and `isolated_order_market_short`.
  abbrev pub set_stoploss_if :
      Option Stoploss
      → IsolatedOrderRequest
      → Result IsolatedOrderRequest IsolatedOrderValidationError
  set_stoploss_if none r = ok r
  set_stoploss_if (some sl) r = with_stoploss r sl

  abbrev pub set_takeprofit_if :
      Option Price → IsolatedOrderRequest → Result IsolatedOrderRequest IsolatedOrderValidationError
  set_takeprofit_if none r = ok r
  set_takeprofit_if (some tp) r = with_takeprofit r tp

  abbrev pub set_client_id_if : Option ClientId → IsolatedOrderRequest → IsolatedOrderRequest
  set_client_id_if none r = r
  set_client_id_if (some id) r = isolated_with_client_id r id

  unfoldable pub isolated_request :
      TradeSide
      → TradeSize
      → Leverage
      → Option Stoploss
      → Option Price
      → Option ClientId
      → Result IsolatedOrderRequest IsolatedOrderValidationError
  isolated_request side size leverage stoploss takeprofit client_id = do
    with_sl ← set_stoploss_if stoploss (isolated_market side size leverage)
    with_tp ← set_takeprofit_if takeprofit with_sl
    ok (set_client_id_if client_id with_tp)
