-- ===== src/Trade/Live/ExecutorState.antt =====
-- src/trade/live/executor/state/mod.rs: the status of the live executor and the session it holds,
-- with `SyncStatusNotSynced` of src/sync/state.rs. An `Arc` of an error is the number that stands for
-- it: two of them are equal where they are the same one. A message is kept in the order it is sent;
-- that no receiver may listen changes nothing.
pub mod Ready
use quantoxide.Prelude.{
  Bool, List, Option, Result, [], err, false, if◌then◌else◌, none, not, ok, some, true, ℕ, ◌++◌,
  ◌==◌, ◌||◌, ◌∷◌,
}
use quantoxide.Sdk.{Sdk}
use quantoxide.Time.{DateTime}
use quantoxide.Trade.Live.{LiveSdk}
use quantoxide.Trade.Live.CrossPosition.{live_is_running}
use quantoxide.Trade.Live.Session.{LiveTradingSession, expire}
use quantoxide.Trade.RunningMap.{is_nil}

pub data SyncStatusNotSynced : Type 0 where
  sync_not_initiated : SyncStatusNotSynced
  sync_starting : SyncStatusNotSynced
  sync_in_progress : SyncStatusNotSynced
  sync_waiting_for_resync : SyncStatusNotSynced
  sync_failed : ℕ → SyncStatusNotSynced
  sync_restarting : SyncStatusNotSynced

pub sync_status_eq : SyncStatusNotSynced → SyncStatusNotSynced → Bool
sync_status_eq sync_not_initiated sync_not_initiated = true
sync_status_eq sync_starting sync_starting = true
sync_status_eq sync_in_progress sync_in_progress = true
sync_status_eq sync_waiting_for_resync sync_waiting_for_resync = true
sync_status_eq sync_restarting sync_restarting = true
sync_status_eq (sync_failed a) (sync_failed b) = a == b
sync_status_eq a b = false

pub data LiveTradeExecutorStatusNotReady : Type 0 where
  executor_starting : LiveTradeExecutorStatusNotReady
  waiting_for_sync : SyncStatusNotSynced → LiveTradeExecutorStatusNotReady
  failed : ℕ → LiveTradeExecutorStatusNotReady
  terminated : ℕ → LiveTradeExecutorStatusNotReady
  shutdown_initiated : LiveTradeExecutorStatusNotReady
  shutdown : LiveTradeExecutorStatusNotReady

pub is_failed : LiveTradeExecutorStatusNotReady → Bool
is_failed executor_starting = false
is_failed (waiting_for_sync s) = false
is_failed (failed e) = true
is_failed (terminated e) = false
is_failed shutdown_initiated = false
is_failed shutdown = false

pub is_unrecoverable : LiveTradeExecutorStatusNotReady → Bool
is_unrecoverable executor_starting = false
is_unrecoverable (waiting_for_sync s) = false
is_unrecoverable (failed e) = false
is_unrecoverable (terminated e) = true
is_unrecoverable shutdown_initiated = true
is_unrecoverable shutdown = true

pub not_ready_eq : LiveTradeExecutorStatusNotReady → LiveTradeExecutorStatusNotReady → Bool
not_ready_eq executor_starting executor_starting = true
not_ready_eq shutdown_initiated shutdown_initiated = true
not_ready_eq shutdown shutdown = true
not_ready_eq (waiting_for_sync a) (waiting_for_sync b) = sync_status_eq a b
not_ready_eq (failed a) (failed b) = a == b
not_ready_eq (terminated a) (terminated b) = a == b
not_ready_eq a b = false

pub data LiveTradeExecutorStatus : Type 0 where
  not_ready : LiveTradeExecutorStatusNotReady → LiveTradeExecutorStatus
  ready : LiveTradeExecutorStatus

-- The variants of `ExecutorActionError` that the lock gives.
pub data ExecutorNotReadyError : Type 0 where
  executor_not_ready_no_session : ExecutorNotReadyError
  executor_not_ready : LiveTradeExecutorStatusNotReady → ExecutorNotReadyError

module _ ⦃sdk : Sdk⦄ ⦃live : LiveSdk⦄ where
  -- The messages of the state. The trading state that is sent is the one of the session.
  pub data LiveTradeExecutorUpdate : Type 0 where
    status_update : LiveTradeExecutorStatus → LiveTradeExecutorUpdate
    trading_state_update : LiveTradingSession → LiveTradeExecutorUpdate

  pub record LiveTradeExecutorState : Type 0 where
    pub status : LiveTradeExecutorStatus
    pub trading_session : Option LiveTradingSession
    pub sent_updates : List LiveTradeExecutorUpdate

  -- `LiveTradeExecutorStateManager::new`
  abbrev pub new_executor_state : LiveTradeExecutorState
  new_executor_state = record {
    status = not_ready executor_starting;
    trading_session = none;
    sent_updates = [];
  }

  pub has_status : LiveTradeExecutorStatus → LiveTradeExecutorStatusNotReady → Bool
  has_status (not_ready current) new = not_ready_eq current new
  has_status ready new = false

  -- The session is expired where the new status is a failure.
  pub expire_session :
      Bool → DateTime → DateTime → Option LiveTradingSession → Option LiveTradingSession
  expire_session true now then_now (some s) = some (expire s now then_now)
  expire_session true now then_now none = none
  expire_session false now then_now o = o

  -- `update_status_not_ready`, with what the clock says the two times that `expire` reads it.
  pub update_status_not_ready :
      LiveTradeExecutorState
      → LiveTradeExecutorStatusNotReady
      → DateTime
      → DateTime
      → LiveTradeExecutorState
  update_status_not_ready st new now then_now = if has_status st.status new then st else record {
    status = not_ready new;
    trading_session = expire_session (is_failed new) now then_now st.trading_session;
    sent_updates = st.sent_updates ++ (status_update (not_ready new) ∷ []);
  }

  pub ready_updates : LiveTradeExecutorStatus → List LiveTradeExecutorUpdate
  ready_updates ready = []
  ready_updates (not_ready s) = status_update ready ∷ []

  pub update_status_ready : LiveTradeExecutorState → LiveTradingSession → LiveTradeExecutorState
  update_status_ready st new_trading_session = record {
    status = ready;
    trading_session = some new_trading_session;
    sent_updates =
        st.sent_updates
        ++ (ready_updates st.status ++ (trading_state_update new_trading_session ∷ []));
  }

  -- `LockedLiveTradeExecutorStateReady::try_from`, with the session of the state that it gives.
  pub lock_ready :
      LiveTradeExecutorStatus
      → Option LiveTradingSession
      → Result LiveTradingSession ExecutorNotReadyError
  lock_ready ready (some s) = ok s
  lock_ready ready none = err executor_not_ready_no_session
  lock_ready (not_ready s) o = err (executor_not_ready s)

  pub try_lock_ready_state :
      LiveTradeExecutorState → Result LiveTradingSession ExecutorNotReadyError
  try_lock_ready_state st = lock_ready st.status st.trading_session

  -- `has_registered_running_trades`
  pub has_registered_running_trades : LiveTradeExecutorState → Bool
  has_registered_running_trades st = elim st.trading_session [
    | none ↦ false
    | some s ↦ not (is_nil s.running_map.trades) || live_is_running s.cross_position
  ]
