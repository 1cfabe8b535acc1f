-- ===== src/Examples/Status.antt =====
-- The state of the live executor at concrete inputs.
use quantoxide.Examples.Live.{empty_session, toy_live}
use quantoxide.Examples.ToySdk.{toy_sdk}
use quantoxide.Prelude.{err, ◌≡◌}
use quantoxide.Time.{hour}
use quantoxide.Trade.Live.ExecutorState.{
  LiveTradeExecutorState, executor_not_ready_no_session, failed, new_executor_state,
  try_lock_ready_state, update_status_not_ready, update_status_ready,
}
use quantoxide.Trade.Live.ExecutorState.Ready.{
  ExecutorReach-lock, from_start, goes_to, turns_not_ready, turns_ready,
}

-- An executor that became ready, failed, and is ready again.
abbrev became_ready : LiveTradeExecutorState ⦃sdk = toy_sdk⦄ ⦃live = toy_live⦄
became_ready =
    update_status_ready ⦃sdk = toy_sdk⦄ ⦃live = toy_live⦄
      (new_executor_state ⦃sdk = toy_sdk⦄ ⦃live = toy_live⦄) empty_session

abbrev has_failed : LiveTradeExecutorState ⦃sdk = toy_sdk⦄ ⦃live = toy_live⦄
has_failed =
    update_status_not_ready ⦃sdk = toy_sdk⦄ ⦃live = toy_live⦄ became_ready (failed 3) hour hour

abbrev ready_again : LiveTradeExecutorState ⦃sdk = toy_sdk⦄ ⦃live = toy_live⦄
ready_again = update_status_ready ⦃sdk = toy_sdk⦄ ⦃live = toy_live⦄ has_failed empty_session

ExecutorReach-lock_example : ¬ (
    try_lock_ready_state ⦃sdk = toy_sdk⦄ ⦃live = toy_live⦄ ready_again
    ≡ err executor_not_ready_no_session)
ExecutorReach-lock_example = ExecutorReach-lock ⦃sdk = toy_sdk⦄ ⦃live = toy_live⦄ ready_again (
    goes_to
      (goes_to
        (goes_to from_start
          (turns_ready (new_executor_state ⦃sdk = toy_sdk⦄ ⦃live = toy_live⦄) empty_session))
        (turns_not_ready became_ready (failed 3) hour hour))
      (turns_ready has_failed empty_session))
