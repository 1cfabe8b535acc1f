-- ===== src/Trade/History.antt =====
-- `ClosedTradeHistory` of src/trade/core.rs, for the simulated closed trades.
use quantoxide.Prelude.{
  Bool, List, Option, Result, [], err, false, if◌then◌else◌, length, none, not, ok, some, true, ℕ,
  ◌||◌,
}
use quantoxide.Prelude.Maps.{Key, btree_get, btree_insert, hash_get, hash_insert}
use quantoxide.Sdk.{Sdk}
use quantoxide.Time.{DateTime}
use quantoxide.Trade.Error.{TradeCoreError, trade_not_closed}
use quantoxide.Trade.Simulated.{SimulatedTradeClosed, closed_at, exit_price, is_closed}

module _ ⦃sdk : Sdk⦄ where
  pub record ClosedTradeHistory : Type 0 where
    pub trades : List (Key × SimulatedTradeClosed)
    pub id_to_time : List (ℕ × DateTime)

  abbrev pub empty_history : ClosedTradeHistory
  empty_history = record { trades = []; id_to_time = [] }

  abbrev is_none {ℓ} : {A : Type ℓ} → Option A → Bool
  is_none none = true
  is_none (some _) = false

  unfoldable pub history_add :
      ClosedTradeHistory → SimulatedTradeClosed → Result ClosedTradeHistory TradeCoreError
  history_add h t =
      if not (is_closed t) || is_none (exit_price t) || is_none (closed_at t)
      then err (trade_not_closed t.id)
      else ok (record {
        trades = btree_insert (t.entry_time, t.id) t h.trades;
        id_to_time = hash_insert t.id t.entry_time h.id_to_time;
      })

  abbrev history_at :
      List (Key × SimulatedTradeClosed) → ℕ → Option DateTime → Option SimulatedTradeClosed
  history_at trades id none = none
  history_at trades id (some creation_ts) = btree_get (creation_ts, id) trades

  pub history_get_by_id : ClosedTradeHistory → ℕ → Option SimulatedTradeClosed
  history_get_by_id h id = history_at h.trades id (hash_get id h.id_to_time)

  pub history_len : ClosedTradeHistory → ℕ
  history_len h = length h.trades
