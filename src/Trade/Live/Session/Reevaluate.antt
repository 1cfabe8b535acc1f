-- ===== src/Trade/Live/Session/Reevaluate.antt =====
-- `reevaluate` of the live session: what the prices since the last evaluation did to its trades.
use quantoxide.Prelude.{
  Bool, List, Option, Result, [], err, false, if◌then◌else◌, length, map_err, none, not, ok, some,
  true, ℕ, ◌&&◌, ◌++◌, ◌==◌, ◌>>=◌, ◌∷◌,
}
use quantoxide.Prelude.Maps.{Key, hash_insert}
use quantoxide.Sdk.{Sdk}
use quantoxide.Time.{DateTime}
use quantoxide.Trade.Live.{
  ExecutorActionError, LiveSdk, closed_trade_not_confirmed, db_is_empty, live_stoploss_evaluation,
  rest_api, unexpected_closed_trade,
}
use quantoxide.Trade.Live.CrossPosition.{liquidation_was_reached}
use quantoxide.Trade.Live.Session.{
  LiveEntry, LiveTradingSession, SessionOutcome, as_running, latest_time, live_trades_desc,
  replace_cross_position,
}
use quantoxide.Trade.Live.Session.Close.{close_session_trades}
use quantoxide.Trade.Live.Session.Update.{update_running_trades}
use quantoxide.Trade.Trigger.{eval_new_stoploss_on_range, was_closed_on_range, was_reached}

module _ ⦃sdk : Sdk⦄ ⦃live : LiveSdk⦄ where
  open sdk use {F64, Price, PercentageCapped}
  open live use {CrossPosition, RestApiError, Trade, trade_id}

  -- The answers of the database and of the API, in the order in which they are asked for.
  pub record Answers : Type 0 where
    pub price_range : Option (F64 × F64 × DateTime × F64)
    pub cross_position : Result CrossPosition RestApiError
    pub closed_trades : ℕ → Result (List Trade) RestApiError
    pub update_stoploss : ℕ → Price → Result Trade RestApiError

  -- What the scan over the trades collects: those to confirm as closed, and the new stoplosses.
  abbrev pub Scan : Type 0
  Scan = List ℕ × List (ℕ × Price)

  abbrev pub note_stoploss : Scan → ℕ → Option Price → Scan
  note_stoploss (ids, moves) id none = (ids, moves)
  note_stoploss (ids, moves) id (some p) = (ids, moves ++ ((id, p) ∷ []))

  pub trail_trade :
      PercentageCapped → F64 → F64 → Scan → LiveEntry → Result Scan ExecutorActionError
  trail_trade step range_min range_max a (t, none) = ok a
  trail_trade step range_min range_max a (t, some trade_tsl) = do
    new_stoploss ←
        map_err live_stoploss_evaluation
          (eval_new_stoploss_on_range (as_running t) step trade_tsl range_min range_max)
    ok (note_stoploss a (trade_id t) new_stoploss)

  pub scan_trade : PercentageCapped → F64 → F64 → Scan → LiveEntry → Result Scan ExecutorActionError
  scan_trade step range_min range_max a e =
      if was_closed_on_range (as_running e.0) range_min range_max
      then ok (a.0 ++ (trade_id e.0 ∷ []), a.1)
      else trail_trade step range_min range_max a e

  pub scan_trades :
      PercentageCapped → F64 → F64 → Scan → List (Key × LiveEntry) → Result Scan ExecutorActionError
  scan_trades step range_min range_max a [] = ok a
  scan_trades step range_min range_max a ((k, e) ∷ es) = do
    b ← scan_trade step range_min range_max a e
    scan_trades step range_min range_max b es

  -- `HashSet::remove`, with whether the id was there.
  abbrev pub remove_id : ℕ → List ℕ → Bool × List ℕ
  remove_id id [] = (false, [])
  remove_id id (j ∷ ids) =
      let (there, rest) = remove_id id ids in if id == j then (true, rest) else (there, j ∷ rest)

  abbrev pub confirm_next :
      Trade
      → Bool × List ℕ
      → (List ℕ → Result (List ℕ) ExecutorActionError)
      → Result (List ℕ) ExecutorActionError
  confirm_next t (true, rest) next = next rest
  confirm_next t (false, rest) next = err (unexpected_closed_trade (trade_id t))

  pub confirm_closed : List ℕ → List Trade → Result (List ℕ) ExecutorActionError
  confirm_closed ids [] = ok ids
  confirm_closed ids (t ∷ ts) =
      confirm_next t (remove_id (trade_id t) ids) λ rest. confirm_closed rest ts

  abbrev pub all_confirmed : List Trade → List ℕ → Result (List Trade) ExecutorActionError
  all_confirmed ts [] = ok ts
  all_confirmed ts (id ∷ ids) = err (closed_trade_not_confirmed id)

  pub confirmed_closed : Answers → List ℕ → Result (List Trade) ExecutorActionError
  confirmed_closed answers [] = ok []
  confirmed_closed answers (id ∷ ids) = do
    recently_closed ← map_err rest_api (answers.closed_trades (length (id ∷ ids)))
    left ← confirm_closed (id ∷ ids) recently_closed
    all_confirmed recently_closed left

  pub moved_trades : Answers → List (ℕ × Price) → Result (List (ℕ × Trade)) ExecutorActionError
  moved_trades answers [] = ok []
  moved_trades answers ((id, p) ∷ moves) = do
    t ← map_err rest_api (answers.update_stoploss id p)
    rest ← moved_trades answers moves
    ok (hash_insert (trade_id t) t rest)

  -- The scan and the requests that it leads to.
  pub requested :
      Answers
      → LiveTradingSession
      → F64
      → F64
      → Result (List Trade × List (ℕ × Trade)) ExecutorActionError
  requested answers s range_min range_max = do
    (ids, moves) ←
        scan_trades s.tsl_step_size range_min range_max ([], []) (live_trades_desc s.running_map)
    closed_trades ← confirmed_closed answers ids
    updated_trades ← moved_trades answers moves
    ok (closed_trades, updated_trades)

  abbrev pub Reevaluated : Type 0
  Reevaluated = LiveTradingSession × Result (List Trade) ExecutorActionError

  abbrev pub with_closed : List Trade → SessionOutcome → Reevaluated
  with_closed ts (s, ok u) = (s, ok ts)
  with_closed ts (s, err e) = (s, err e)

  abbrev pub close_updated : List Trade → SessionOutcome → Reevaluated
  close_updated ts (s, ok u) = with_closed ts (close_session_trades s ts)
  close_updated ts (s, err e) = (s, err e)

  unfoldable pub apply_requested :
      LiveTradingSession → Result (List Trade × List (ℕ × Trade)) ExecutorActionError → Reevaluated
  apply_requested s (err e) = (s, err e)
  apply_requested s (ok (closed_trades, updated_trades)) =
      close_updated closed_trades (update_running_trades s updated_trades)

  unfoldable pub check_trades : Answers → F64 → F64 → SessionOutcome → Reevaluated
  check_trades answers range_min range_max (s, err e) = (s, err e)
  check_trades answers range_min range_max (s, ok u) =
      if not (was_reached s.trigger range_min) && not (was_reached s.trigger range_max)
      then (s, ok [])
      else apply_requested s (requested answers s range_min range_max)

  abbrev pub refreshed : LiveTradingSession → Result CrossPosition RestApiError → SessionOutcome
  refreshed s (ok raw) = replace_cross_position s raw
  refreshed s (err e) = (s, err (rest_api e))

  unfoldable pub refresh_if_liquidated : Answers → F64 → F64 → LiveTradingSession → SessionOutcome
  refresh_if_liquidated answers range_min range_max s =
      if liquidation_was_reached s.cross_position range_min range_max
      then refreshed s answers.cross_position
      else (s, ok tt)

  unfoldable pub reevaluate_in :
      LiveTradingSession → Answers → Option (F64 × F64 × DateTime × F64) → Reevaluated
  reevaluate_in s answers none = (s, err db_is_empty)
  reevaluate_in s answers (some (range_min, range_max, latest_time, latest_price)) =
      check_trades answers range_min range_max (
        refresh_if_liquidated answers range_min range_max
          (record s { last_evaluation_time = latest_time; last_price = latest_price }))

  unfoldable pub reevaluate : LiveTradingSession → Answers → Reevaluated
  reevaluate s answers = reevaluate_in s answers answers.price_range
