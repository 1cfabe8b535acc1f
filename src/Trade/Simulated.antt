-- ===== src/Trade/Simulated.antt =====
-- `SimulatedTradeRunning` and `SimulatedTradeClosed` of src/trade/backtest/executor/models.rs.
-- A `Uuid` is a number that is only compared; `Uuid::new_v4()` is an argument.
use quantoxide.Db.{FundingSettlementRow}
use quantoxide.Prelude.{
  Bool, Option, Result, err, if◌then◌else◌, map_err, none, ok, some, true, ℕ, ◌>>=◌,
}
use quantoxide.Prelude.Int.{leb_ℤ, pos, ℤ}
use quantoxide.Prelude.Machine.{as_i64, i64_add}
use quantoxide.Sdk.{
  LeverageValidationError, Sdk, TradeSide, buy, not_a_number, other_error, sell, too_high, too_low,
}
use quantoxide.Time.{DateTime}
use quantoxide.Trade.Error.{SimulatedTradeExecutorError, panicked, trade_validation}

module _ ⦃sdk : Sdk⦄ where
  open sdk use {
    F64, f64_mul, f64_div, f64_neg, f64_floor, f64_round, f64_as_i64, Price, PercentageCapped,
    sats_per_btc, Margin, margin_try_sub, OrderQuantity, quantity_as_f64, Leverage,
    leverage_minimum, leverage_try_calculate, TradeSize, ClientId, evaluate_open_trade_params,
    evaluate_new_stoploss, evaluate_added_margin, evaluate_cash_in, est_liquidation_from_leverage,
    evaluate_order_fee, estimate_pl,
  }

  pub record SimulatedTradeRunning : Type 0 where
    pub id : ℕ
    pub side : TradeSide
    pub opening_fee : ℕ
    pub closing_fee_reserved : ℕ
    pub quantity : OrderQuantity
    pub margin : Margin
    pub leverage : Leverage
    pub price : Price
    pub liquidation : Price
    pub stoploss : Option Price
    pub takeprofit : Option Price
    pub entry_time : DateTime
    pub entry_price : Price
    pub client_id : Option ClientId

  pub record SimulatedTradeClosed : Type 0 where
    pub id : ℕ
    pub side : TradeSide
    pub entry_time : DateTime
    pub entry_price : Price
    pub price : Price
    pub liquidation : Price
    pub stoploss : Option Price
    pub takeprofit : Option Price
    pub margin : Margin
    pub quantity : OrderQuantity
    pub leverage : Leverage
    pub close_time : DateTime
    pub close_price : Price
    pub opening_fee : ℕ
    pub closing_fee_reserved : ℕ
    pub closing_fee : ℕ
    pub client_id : Option ClientId

  unfoldable pub new_trade :
      ℕ
      → TradeSide
      → TradeSize
      → Leverage
      → DateTime
      → Price
      → Option Price
      → Option Price
      → PercentageCapped
      → Option ClientId
      → Result SimulatedTradeRunning SimulatedTradeExecutorError
  new_trade id side size leverage entry_time entry_price stoploss takeprofit fee_perc client_id = do
    (quantity, margin, liquidation, opening_fee, closing_fee_reserved) ←
        map_err trade_validation
          (evaluate_open_trade_params side size leverage entry_price stoploss takeprofit fee_perc)
    ok (record {
      id = id;
      side = side;
      opening_fee = opening_fee;
      closing_fee_reserved = closing_fee_reserved;
      quantity = quantity;
      margin = margin;
      leverage = leverage;
      price = entry_price;
      liquidation = liquidation;
      stoploss = stoploss;
      takeprofit = takeprofit;
      entry_time = entry_time;
      entry_price = entry_price;
      client_id = client_id;
    })

  unfoldable pub with_new_stoploss :
      SimulatedTradeRunning
      → Price
      → Price
      → Result SimulatedTradeRunning SimulatedTradeExecutorError
  with_new_stoploss t market_price new_stoploss = do
    _ ←
        map_err trade_validation
          (evaluate_new_stoploss t.side t.liquidation t.takeprofit market_price new_stoploss)
    ok (record t { stoploss = some new_stoploss })

  pub with_added_margin :
      SimulatedTradeRunning → ℕ → Result SimulatedTradeRunning SimulatedTradeExecutorError
  with_added_margin t amount = do
    (new_margin, new_leverage, new_liquidation) ←
        map_err trade_validation (evaluate_added_margin t.side t.quantity t.price t.margin amount)
    ok (record t { margin = new_margin; leverage = new_leverage; liquidation = new_liquidation })

  pub with_cash_in :
      SimulatedTradeRunning → Price → ℕ → Result SimulatedTradeRunning SimulatedTradeExecutorError
  with_cash_in t market_price amount = do
    (new_price, new_margin, new_leverage, new_liquidation, new_stoploss) ←
        map_err trade_validation
          (evaluate_cash_in t.side t.quantity t.margin t.price t.stoploss market_price amount)
    ok (record t {
      price = new_price;
      stoploss = new_stoploss;
      margin = new_margin;
      leverage = new_leverage;
      liquidation = new_liquidation;
    })

  -- Positive is a cost: longs pay when the rate is positive, shorts when it is negative.
  unfoldable pub funding_fee_of : TradeSide → F64 → ℤ
  funding_fee_of buy raw_fee = f64_as_i64 (f64_round raw_fee)
  funding_fee_of sell raw_fee = f64_as_i64 (f64_round (f64_neg raw_fee))

  unfoldable pub raw_funding_fee : F64 → FundingSettlementRow → F64
  raw_funding_fee quantity s =
      f64_mul (f64_mul (f64_div quantity s.fixing_price) s.funding_rate) sats_per_btc

  -- The `match` on `Leverage::try_calculate`; `none` is the early return that closes the trade.
  pub leverage_after_funding :
      Result Leverage LeverageValidationError → Result (Option Leverage) SimulatedTradeExecutorError
  leverage_after_funding (ok leverage) = ok (some leverage)
  leverage_after_funding (err too_low) = ok (some leverage_minimum)
  leverage_after_funding (err too_high) = ok none
  leverage_after_funding (err not_a_number) = err panicked
  leverage_after_funding (err other_error) = err panicked

  pub with_leverage_after_funding :
      SimulatedTradeRunning → Margin → Option Leverage → Option SimulatedTradeRunning
  with_leverage_after_funding t new_margin none = none
  with_leverage_after_funding t new_margin (some new_leverage) = some (record t {
    margin = new_margin;
    leverage = new_leverage;
    liquidation = est_liquidation_from_leverage t.side t.quantity t.price new_leverage;
  })

  -- The positive fee is taken from the margin.
  pub charge_funding_fee :
      SimulatedTradeRunning
      → ℤ
      → Option Margin
      → Result (Option SimulatedTradeRunning × ℤ) SimulatedTradeExecutorError
  charge_funding_fee t funding_fee none = ok (none, funding_fee)
  charge_funding_fee t funding_fee (some new_margin) = do
    new_leverage ← leverage_after_funding (leverage_try_calculate t.quantity new_margin t.price)
    ok (with_leverage_after_funding t new_margin new_leverage, funding_fee)

  pub trade_funding_settlement :
      SimulatedTradeRunning
      → FundingSettlementRow
      → Result (Option SimulatedTradeRunning × ℤ) SimulatedTradeExecutorError
  trade_funding_settlement t s =
      let fee = funding_fee_of t.side (raw_funding_fee (quantity_as_f64 t.quantity) s) in
      if leb_ℤ fee (pos 0)
      then ok (some t, fee)
      else charge_funding_fee t fee (margin_try_sub t.margin fee)

  unfoldable pub to_closed :
      SimulatedTradeRunning → PercentageCapped → DateTime → Price → SimulatedTradeClosed
  to_closed t fee_perc close_time close_price = record {
    id = t.id;
    side = t.side;
    entry_time = t.entry_time;
    entry_price = t.entry_price;
    price = t.price;
    liquidation = t.liquidation;
    stoploss = t.stoploss;
    takeprofit = t.takeprofit;
    margin = t.margin;
    quantity = t.quantity;
    leverage = t.leverage;
    close_time = close_time;
    close_price = close_price;
    opening_fee = t.opening_fee;
    closing_fee_reserved = t.closing_fee_reserved;
    closing_fee = evaluate_order_fee fee_perc t.quantity close_price;
    client_id = t.client_id;
  }

  -- `TradeCore::maintenance_margin` of a running trade, and of a closed one.
  unfoldable pub maintenance_margin : SimulatedTradeRunning → ℤ
  maintenance_margin t = i64_add (as_i64 t.opening_fee) (as_i64 t.closing_fee_reserved)

  unfoldable pub closed_maintenance_margin : SimulatedTradeClosed → ℤ
  closed_maintenance_margin t = i64_add (as_i64 t.opening_fee) (as_i64 t.closing_fee_reserved)

  pub est_pl : SimulatedTradeRunning → Price → F64
  est_pl t market_price = estimate_pl t.side t.quantity t.price market_price

  -- `TradeCore` of a closed trade: `closed`, `exit_price`, `closed_at`, and `TradeClosed::pl`.
  unfoldable pub is_closed : SimulatedTradeClosed → Bool
  is_closed t = true

  unfoldable pub exit_price : SimulatedTradeClosed → Option Price
  exit_price t = some t.close_price

  unfoldable pub closed_at : SimulatedTradeClosed → Option DateTime
  closed_at t = some t.close_time

  unfoldable pub closed_pl : SimulatedTradeClosed → ℤ
  closed_pl t = f64_as_i64 (f64_floor (estimate_pl t.side t.quantity t.price t.close_price))
