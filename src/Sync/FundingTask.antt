-- ===== src/Sync/FundingTask.antt =====
-- src/sync/process/sync_funding_settlements_task/mod.rs: the task that downloads funding settlements.
-- Queries that fail, each of which ends the task with its error, are left out.
pub mod Backfill
pub mod Exclude
pub mod Fetch
pub mod GivenUp
use quantoxide.Dates.Funding.{
  ceil_funding_settlement_time, floor_funding_settlement_time, is_valid_funding_settlement_time,
}
use quantoxide.Prelude.{
  Bool, List, Option, Result, [], err, false, if◌then◌else◌, leb, map_err, none, ok, some, suc,
  true, zero, ℕ, ◌*◌, ◌++◌, ◌+◌, ◌==◌, ◌||◌, ◌∷◌,
}
use quantoxide.Sync.FundingSettlements.{
  FundingDownloadRange, FundingSettlementsState, SyncFundingSettlementsFatalError,
  api_settlements_not_available_before_history_start, funding_range_from, funding_range_to,
  funding_state_new, has_missing, invalid_settlement_time, latest_settlements, missing,
  next_settlements_range, settlements_from, settlements_until,
}
use quantoxide.Sync.Step.{Step, of_result, pure, ◌>>=◌, ◌>>◌}
use quantoxide.Time.{DateTime, hour, second}

pub data SyncFundingSettlementsRecoverableError (ApiError : Type 0) : Type 0 where
  rest_api_max_trials_reached : ApiError → ℕ → SyncFundingSettlementsRecoverableError ApiError
  history_update_handler_failed : SyncFundingSettlementsRecoverableError ApiError

pub data SyncFundingSettlementsError (ApiError : Type 0) : Type 0 where
  recoverable :
      SyncFundingSettlementsRecoverableError ApiError → SyncFundingSettlementsError ApiError
  fatal : SyncFundingSettlementsFatalError → SyncFundingSettlementsError ApiError

-- What the task needs of the table of settlements and of the settlements of the API.
pub record SettlementStore : Type 1 where
  pub Db : Type 0
  pub FundingSettlement : Type 0
  pub ApiError : Type 0
  pub settlement_time : FundingSettlement → DateTime
  pub stored_bounds : Db → Option (DateTime × DateTime)  -- the earliest and the latest
  pub get_missing_settlement_times : Db → DateTime → DateTime → List DateTime
  pub add_settlements : List FundingSettlement → Db → Db

-- `SyncFundingSettlementsTask::next_funding_timer`, the time it waits for.
pub next_funding_time : DateTime → DateTime
next_funding_time now =
    let next_time = ceil_funding_settlement_time now in
    if next_time == now then now + 8 * hour else next_time

unfoldable pub contains_time : DateTime → List DateTime → Bool
contains_time t [] = false
contains_time t (u ∷ us) = t == u || contains_time t us

abbrev pub is_none_time : Option DateTime → Bool
is_none_time none = true
is_none_time (some t) = false

module _ ⦃store : SettlementStore⦄ where
  open store use {
    ApiError, Db, FundingSettlement, add_settlements, get_missing_settlement_times, settlement_time,
    stored_bounds,
  }

  -- The fields of the task that its steps read. `flag_missing_range`, an argument of `backfill`, is
  -- here as well.
  pub record TaskConfig : Type 0 where
    pub funding_settlement_reach : DateTime
    pub rest_api_error_max_trials : ℕ
    pub flag_missing_range : Option ℕ

  abbrev pub Failure : Type 0
  Failure = SyncFundingSettlementsError ApiError

  -- What the outside does during one turn of the loop: the API's answer to the n-th request for a
  -- range, what the clock says each time it is read, and whether the receiver still listens.
  pub record Turn : Type 0 where
    pub answers : Option DateTime → Option DateTime → ℕ → Result (List FundingSettlement) ApiError
    pub scanned_at : DateTime
    pub rescanned_at : DateTime
    pub ended_at : DateTime
    pub listens : Bool
    pub listens_again : Bool

  pub record World : Type 0 where
    pub db : Db
    pub sent : List FundingSettlementsState

  -- The loop of `get_new_settlements`, from a number of trials on.
  unfoldable pub fetch_page :
      (ℕ → Result (List FundingSettlement) ApiError)
      → ℕ
      → ℕ
      → ℕ
      → Option (Result (List FundingSettlement) Failure)
  fetch_page api max_trials trials zero = none
  fetch_page api max_trials trials (suc fuel) =
      let retried = fetch_page api max_trials (suc trials) fuel in
      elim (api trials) [
        | ok page ↦ some (ok page)
        | err e ↦
            if leb max_trials (suc trials)
            then some (err (recoverable (rest_api_max_trials_reached e max_trials)))
            else retried
      ]

  -- The end of the requested range is one second later.
  abbrev pub request_to : Option DateTime → Option DateTime
  request_to none = none
  request_to (some t) = some (t + second)

  -- The fuel is enough, so there is a result.
  abbrev pub fetched :
      Option (Result (List FundingSettlement) Failure) → Result (List FundingSettlement) Failure
  fetched none = ok []
  fetched (some r) = r

  unfoldable pub get_new_settlements :
      TaskConfig → Turn → FundingDownloadRange → Result (List FundingSettlement) Failure
  get_new_settlements config turn range = fetched (
      fetch_page (turn.answers (funding_range_from range) (request_to (funding_range_to range)))
        config.rest_api_error_max_trials 0 config.rest_api_error_max_trials)

  -- The loop of `partial_download` over the settlements, and its test for an empty page.
  unfoldable pub check_settlements : List FundingSettlement → Result (Unit {0}) Failure
  check_settlements [] = ok tt
  check_settlements (s ∷ ss) =
      let rest = check_settlements ss in
      if is_valid_funding_settlement_time (settlement_time s)
      then rest
      else err (fatal (invalid_settlement_time (settlement_time s)))

  unfoldable pub check_available :
      FundingDownloadRange → List FundingSettlement → Result (Unit {0}) Failure
  check_available (settlements_until to) [] =
      err (fatal (api_settlements_not_available_before_history_start to))
  check_available (settlements_until to) (s ∷ ss) = ok tt
  check_available latest_settlements ss = ok tt
  check_available (settlements_from from) ss = ok tt
  check_available (missing from to) ss = ok tt

  abbrev Task : Type 0 → Type 0
  Task = Step World Failure

  unfoldable pub insert_settlements : List FundingSettlement → Task (Unit {0})
  insert_settlements page w = (record w { db = add_settlements page w.db }, ok tt)

  unfoldable pub partial_download : TaskConfig → Turn → FundingDownloadRange → Task (Unit {0})
  partial_download config turn range = do
    page ← of_result (get_new_settlements config turn range)
    of_result (check_settlements page)
    of_result (check_available range page)
    insert_settlements page

  unfoldable pub handle_state_update : Bool → FundingSettlementsState → Task (Unit {0})
  handle_state_update true state w = (record w { sent = w.sent ++ (state ∷ []) }, ok tt)
  handle_state_update false state w = (w, err (recoverable history_update_handler_failed))

  -- `FundingSettlementsState::evaluate_with_reach`
  unfoldable pub evaluate_with_reach :
      TaskConfig → DateTime → Option DateTime → Task FundingSettlementsState
  evaluate_with_reach config now exclude_missing_after w = (
    w,
    map_err fatal (
        funding_state_new (get_missing_settlement_times w.db) now (stored_bounds w.db)
          (some config.funding_settlement_reach) config.flag_missing_range exclude_missing_after),
  )

  -- An evaluation that is sent on.
  unfoldable pub evaluate_and_send :
      TaskConfig → DateTime → Bool → Option DateTime → Task FundingSettlementsState
  evaluate_and_send config now listens exclude_missing_after = do
    state ← evaluate_with_reach config now exclude_missing_after
    handle_state_update listens state
    pure state

  -- The local variables of the loop of `backfill`.
  pub record Progress : Type 0 where
    pub state : FundingSettlementsState
    pub exclude_missing_after : Option DateTime

  unfoldable pub persists : FundingDownloadRange → FundingSettlementsState → Bool
  persists (missing from to) new_state = contains_time to new_state.missing_times
  persists latest_settlements new_state = false
  persists (settlements_from from) new_state = false
  persists (settlements_until to) new_state = false

  -- What the API does not fill is left out of the next scans.
  unfoldable pub advance :
      TaskConfig
      → Turn
      → FundingDownloadRange
      → Option DateTime
      → FundingSettlementsState
      → Task Progress
  advance config turn range exclude_missing_after new_state =
      if persists range new_state
      then (do
        state ←
            evaluate_and_send config turn.rescanned_at turn.listens_again (funding_range_to range)
        pure record { state = state; exclude_missing_after = funding_range_to range })
      else pure record { state = new_state; exclude_missing_after = exclude_missing_after }

  pub data TurnEnd : Type 0 where
    continued : Progress → TurnEnd
    returned : Bool → TurnEnd

  abbrev pub ends_at_least : Option (DateTime × DateTime) → DateTime → Bool
  ends_at_least none t = false
  ends_at_least (some (start, end)) t = leb t end

  unfoldable pub is_synced : FundingSettlementsState → DateTime → Bool
  is_synced s now = ends_at_least s.bounds (floor_funding_settlement_time now)

  unfoldable pub finish_turn : Turn → FundingDownloadRange → Progress → Task TurnEnd
  finish_turn turn range p = do
    lacks ← of_result (map_err fatal (has_missing p.state))
    let synced = is_synced p.state turn.ended_at
    if lacks
        then pure (continued p)
        else if synced || is_none_time (funding_range_to range)
        then pure (returned synced)
        else pure (continued p)

  -- One turn of the loop of `backfill`.
  unfoldable pub backfill_turn : TaskConfig → Turn → Progress → Task TurnEnd
  backfill_turn config turn p = do
    range ← of_result (map_err fatal (next_settlements_range p.state true))
    partial_download config turn range
    new_state ← evaluate_and_send config turn.scanned_at turn.listens p.exclude_missing_after
    next ← advance config turn range p.exclude_missing_after new_state
    finish_turn turn range next

  -- The loop, for as many turns as are given: what it returns, or `none` where it still runs.
  unfoldable pub backfill_loop : TaskConfig → List Turn → Progress → Task (Option Bool)
  backfill_loop config [] p = pure none
  backfill_loop config (turn ∷ turns) p = do
    end ← backfill_turn config turn p
    elim end [
      | returned synced ↦ pure (some synced)
      | continued next ↦ backfill_loop config turns next
    ]

  unfoldable pub backfill : TaskConfig → DateTime → Bool → List Turn → Task (Option Bool)
  backfill config now listens turns = do
    state ← evaluate_and_send config now listens none
    backfill_loop config turns record { state = state; exclude_missing_after = none }
