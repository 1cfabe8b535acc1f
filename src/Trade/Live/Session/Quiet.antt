-- ===== src/Trade/Live/Session/Quiet.antt =====
-- Prices that do not reach the price trigger of a live session close none of its trades.
use quantoxide.Prelude.{All, All-map, false, ◌≡◌}
use quantoxide.Prelude.Maps.{Key}
use quantoxide.Sdk.{Sdk}
use quantoxide.Sdk.Laws.{PriceLaws}
use quantoxide.Trade.Live.{LiveSdk}
use quantoxide.Trade.Live.Session.{LiveEntry, LiveTradingSession, as_running}
use quantoxide.Trade.Live.Session.TriggerKept.{SessionCovers}
use quantoxide.Trade.Trigger.{was_reached}
use quantoxide.Trade.Trigger.Coverage.{Covers}
use quantoxide.Trade.Trigger.Quiet.{StaysOpen, covered-StaysOpen}

module _ ⦃sdk : Sdk⦄ ⦃live : LiveSdk⦄ where
  open sdk use {F64}

  -- If `Price` is totally ordered in agreement with `f64` and the trigger covers the running trades:
  -- where neither end of a price range reaches the trigger, the range reaches no stoploss and no
  -- takeprofit of a running trade, and closes none of these trades, so that the early return of
  -- `reevaluate` misses none, but for a trade whose stoploss lies beyond its liquidation price.
  pub quiet_range_closes_none :
      (laws : PriceLaws) (s : LiveTradingSession) (lo hi : F64)
      → SessionCovers s
      → was_reached s.trigger lo ≡ false
      → was_reached s.trigger hi ≡ false
      → All (λ (e : Key × LiveEntry). StaysOpen (as_running e.1.0) lo hi) s.running_map.trades
  quiet_range_closes_none laws s lo hi c l h =
      All-map (λ (e : Key × LiveEntry). Covers s.tsl_step_size s.trigger (as_running e.1.0, e.1.1))
        _ s.running_map.trades
        (λ e k.
          covered-StaysOpen laws s.tsl_step_size s.trigger (as_running e.1.0) e.1.1 lo hi k l h)
        c
