-- ===== src/Trade/Live/ExecutorState/Ready.antt =====
-- What the state of the live executor is through any sequence of its updates.
use quantoxide.Prelude.{Bool-cases, Option, err, inl, inr, none, refl, some, ◌≡◌}
use quantoxide.Sdk.{Sdk}
use quantoxide.Time.{DateTime}
use quantoxide.Trade.Live.{LiveSdk}
use quantoxide.Trade.Live.ExecutorState.{
  LiveTradeExecutorState, LiveTradeExecutorStatus, LiveTradeExecutorStatusNotReady,
  executor_not_ready_no_session, has_status, lock_ready, new_executor_state, not_ready, ready,
  try_lock_ready_state, update_status_not_ready, update_status_ready,
}
use quantoxide.Trade.Live.Session.{LiveTradingSession}

module _ ⦃sdk : Sdk⦄ ⦃live : LiveSdk⦄ where
  pub data ExecutorStep : LiveTradeExecutorState → LiveTradeExecutorState → Type 0 where
    turns_not_ready :
        (st : LiveTradeExecutorState) (new : LiveTradeExecutorStatusNotReady)
        (now then_now : DateTime)
        → ExecutorStep st (update_status_not_ready st new now then_now)
    turns_ready :
        (st : LiveTradeExecutorState) (s : LiveTradingSession)
        → ExecutorStep st (update_status_ready st s)

  pub data ExecutorReach : LiveTradeExecutorState → Type 0 where
    from_start : ExecutorReach new_executor_state
    goes_to :
        {st next : LiveTradeExecutorState}
        → ExecutorReach st
        → ExecutorStep st next
        → ExecutorReach next

  -- A ready executor holds a session.
  abbrev HoldsSession : LiveTradeExecutorState → Type 0
  HoldsSession st = st.status ≡ ready → (s : LiveTradingSession) × (st.trading_session ≡ some s)

  update_status_not_ready-HoldsSession :
      (st : LiveTradeExecutorState) (new : LiveTradeExecutorStatusNotReady)
      (now then_now : DateTime)
      → HoldsSession st
      → HoldsSession (update_status_not_ready st new now then_now)
  unfolding update_status_not_ready
  update_status_not_ready-HoldsSession st new now then_now h =
      elim (Bool-cases (has_status st.status new)) [ inl e ↦ rw e h | inr e ↦ rw e (λ r. cc) ]

  ExecutorStep-HoldsSession :
      {st next : LiveTradeExecutorState}
      → ExecutorStep st next
      → HoldsSession st
      → HoldsSession next
  unfolding update_status_ready
  ExecutorStep-HoldsSession (turns_not_ready st new now then_now) h =
      update_status_not_ready-HoldsSession st new now then_now h
  ExecutorStep-HoldsSession (turns_ready st s) h = λ r. (s, refl)

  ExecutorReach-HoldsSession : {st : LiveTradeExecutorState} → ExecutorReach st → HoldsSession st
  ExecutorReach-HoldsSession from_start = λ r. cc
  ExecutorReach-HoldsSession (goes_to before step) =
      ExecutorStep-HoldsSession step (ExecutorReach-HoldsSession before)

  lock_ready-session :
      (status : LiveTradeExecutorStatus) (o : Option LiveTradingSession)
      → (status ≡ ready → (s : LiveTradingSession) × (o ≡ some s))
      → ¬ (lock_ready status o ≡ err executor_not_ready_no_session)
  unfolding lock_ready
  lock_ready-session ready none h = λ k. let held = (h refl).1 in cc
  lock_ready-session ready (some s) h = λ k. cc
  lock_ready-session (not_ready s) o h = λ k. cc

  -- Through any sequence of status updates, failures and new sessions from its start on, the live
  -- executor never answers an action with the error that it is ready without a session.
  pub ExecutorReach-lock :
      (st : LiveTradeExecutorState)
      → ExecutorReach st
      → ¬ (try_lock_ready_state st ≡ err executor_not_ready_no_session)
  unfolding try_lock_ready_state
  ExecutorReach-lock st r =
      lock_ready-session st.status st.trading_session (ExecutorReach-HoldsSession r)
