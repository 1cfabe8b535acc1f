-- ===== src/Trade/Executor/TriggerInvariant.antt =====
-- The price trigger covers every running trade: an invariant of the operations that rebuild or
-- extend the map of running trades.
use quantoxide.Db.{OhlcCandleRow}
use quantoxide.Prelude.{
  All, All-map, Bool-cases, List, Option, Result, [], ap, arith, err, inl, inr, none, ok, refl,
  some, split_bind, split_map_err, subst, ℕ, ◌++◌, ◌>>=◌, ◌∙◌, ◌∷◌, ◌≡◌,
}
use quantoxide.Prelude.Maps.{All-btree_insert, Key}
use quantoxide.Sdk.{Sdk}
use quantoxide.Sdk.Laws.{PriceLaws}
use quantoxide.Time.{DateTime}
use quantoxide.Trade.Error.{SimulatedTradeExecutorError, price_trigger_update}
use quantoxide.Trade.Executor.{
  SimulatedTradeExecutorConfig, SimulatedTradeExecutorState, Tally, book_closed, keep_running,
}
use quantoxide.Trade.Executor.Candle.{
  candle_next, candle_trade, candle_trades, exit_or_trail, exit_price_in, keep_trailed, trail,
}
use quantoxide.Trade.Executor.Close.{Close, close_trade, close_trades, should_be_closed}
use quantoxide.Trade.RunningMap.{Entry, RunningTradesMap, add, key_of}
use quantoxide.Trade.Simulated.{SimulatedTradeClosed, SimulatedTradeRunning, to_closed}
use quantoxide.Trade.Stoploss.{TradeTrailingStoploss}
use quantoxide.Trade.Trigger.{PriceTrigger, trigger_update}
use quantoxide.Trade.Trigger.Coverage.{Covers, trigger_update-Covers}

module _ ⦃sdk : Sdk⦄ where
  open sdk use {Price, PercentageCapped}

  abbrev pub CoversAll : PercentageCapped → PriceTrigger → RunningTradesMap → Type 0
  CoversAll step g m = All (λ (e : Key × Entry). Covers step g e.1) m.trades

  -- Every running trade is covered by the trigger of the state.
  abbrev pub TriggerCovers : SimulatedTradeExecutorConfig → SimulatedTradeExecutorState → Type 0
  TriggerCovers cfg s = CoversAll cfg.trailing_stoploss_step_size s.trigger s.running_map

  abbrev pub TallyCovers : SimulatedTradeExecutorConfig → Tally → Type 0
  TallyCovers cfg a = CoversAll cfg.trailing_stoploss_step_size a.new_trigger a.new_running_map

  module _ (laws : PriceLaws) (cfg : SimulatedTradeExecutorConfig) where
    pub add-CoversAll :
        (g : PriceTrigger) (m : RunningTradesMap) (t : SimulatedTradeRunning)
        (tsl : Option TradeTrailingStoploss) {g' : PriceTrigger}
        → trigger_update g cfg.trailing_stoploss_step_size t tsl ≡ ok g'
        → CoversAll cfg.trailing_stoploss_step_size g m
        → CoversAll cfg.trailing_stoploss_step_size g' (add m t tsl)
    unfolding add
    add-CoversAll g m t tsl {g' = g'} h c =
        let step = cfg.trailing_stoploss_step_size in
        let (new, old) = trigger_update-Covers laws g step t tsl h in
        All-btree_insert (λ (e : Key × Entry). Covers step g' e.1) (key_of t) (t, tsl) m.trades new
          (All-map (λ (e : Key × Entry). Covers step g e.1)
            (λ (e : Key × Entry). Covers step g' e.1) m.trades (λ e. old e.1) c)

    pub keep_running-TallyCovers :
        (a : Tally) (t : SimulatedTradeRunning) (tsl : Option TradeTrailingStoploss) {a' : Tally}
        → keep_running cfg a t tsl ≡ ok a'
        → TallyCovers cfg a
        → TallyCovers cfg a'
    unfolding keep_running
    keep_running-TallyCovers a t tsl {a' = a'} h c =
        split_map_err price_trigger_update
          (trigger_update a.new_trigger cfg.trailing_stoploss_step_size t tsl) _ h
          λ g h1 k1.
            let same : record a { new_trigger = g; new_running_map = add a.new_running_map t tsl }
                ≡ a' =
              ground arith in
            subst (TallyCovers cfg) same (add-CoversAll a.new_trigger a.new_running_map t tsl h1 c)

    keep_trailed-TallyCovers :
        (a : Tally) (t : SimulatedTradeRunning) (tsl : Option TradeTrailingStoploss)
        (r : Result SimulatedTradeRunning SimulatedTradeExecutorError) {a' : Tally}
        → (keep_trailed cfg a t tsl r).1 ≡ ok a'
        → TallyCovers cfg a
        → TallyCovers cfg a'
    unfolding keep_trailed
    keep_trailed-TallyCovers a t tsl (ok t') h c = keep_running-TallyCovers a t' tsl h c
    keep_trailed-TallyCovers a t tsl (err e) h c = cc

    pub book_closed-TallyCovers :
        (a : Tally) (c : SimulatedTradeClosed) (time : Option DateTime) {a' : Tally}
        → ◌≡◌ {A = Result Tally SimulatedTradeExecutorError} (ok (book_closed a c time)) (ok a')
        → TallyCovers cfg a
        → TallyCovers cfg a'
    unfolding book_closed
    book_closed-TallyCovers a c time {a' = a'} h covers =
        let same : book_closed a c time ≡ a' = cc in subst (TallyCovers cfg) same covers

    exit_or_trail-TallyCovers :
        (candle : OhlcCandleRow) (time : DateTime) (a : Tally) (t : SimulatedTradeRunning)
        (tsl : Option TradeTrailingStoploss) (p : Option Price) {a' : Tally}
        → (exit_or_trail cfg candle time a t tsl p).1 ≡ ok a'
        → TallyCovers cfg a
        → TallyCovers cfg a'
    unfolding exit_or_trail
    exit_or_trail-TallyCovers candle time a t tsl none h c =
        keep_trailed-TallyCovers a t tsl (trail cfg candle t tsl) h c
    exit_or_trail-TallyCovers candle time a t tsl (some p) h c =
        book_closed-TallyCovers a (to_closed t cfg.fee_perc candle.time p) (some time) h c

    candle_next-TallyCovers :
        (k : Key) (tsl : Option TradeTrailingStoploss) (es : List (Key × Entry))
        (r : SimulatedTradeRunning × Result Tally SimulatedTradeExecutorError)
        (rest : Tally → List (Key × Entry) × Result Tally SimulatedTradeExecutorError) {a' : Tally}
        → (candle_next k tsl es r rest).1 ≡ ok a'
        → ((b : Tally) → r.1 ≡ ok b → (rest b).1 ≡ ok a' → TallyCovers cfg a')
        → TallyCovers cfg a'
    unfolding candle_next
    candle_next-TallyCovers k tsl es (t, ok b) rest h use_rest = use_rest b refl h
    candle_next-TallyCovers k tsl es (t, err e) rest h use_rest = cc

    pub candle_trades-TallyCovers :
        (candle : OhlcCandleRow) (time : DateTime) (a : Tally) (es : List (Key × Entry))
        {a' : Tally}
        → (candle_trades cfg candle time a es).1 ≡ ok a'
        → TallyCovers cfg a
        → TallyCovers cfg a'
    unfolding candle_trades candle_trade
    candle_trades-TallyCovers candle time a [] {a' = a'} h c =
        let same : a ≡ a' = cc in subst (TallyCovers cfg) same c
    candle_trades-TallyCovers candle time a ((k, (t, tsl)) ∷ es) h c =
        candle_next-TallyCovers k tsl es (candle_trade cfg candle time a (t, tsl))
          (λ b. candle_trades cfg candle time b es) h
          λ b h1 k1.
            candle_trades-TallyCovers candle time b es k1
              (exit_or_trail-TallyCovers candle time a t tsl (exit_price_in t candle) h1 c)

    close_trade-TallyCovers :
        (close : Close) (time : DateTime) (price : Price) (a : Tally × List ℕ) (e : Entry)
        {a' : Tally × List ℕ}
        → close_trade cfg close time price a e ≡ ok a'
        → TallyCovers cfg a.0
        → TallyCovers cfg a'.0
    unfolding close_trade
    close_trade-TallyCovers close time price (a, ids) (t, tsl) {a' = a'} h c =
        elim (Bool-cases (should_be_closed close t)) [
          | inl yes_close ↦
              let booked =
                book_closed a (to_closed t cfg.fee_perc time price) a.new_last_trade_time in
              let same : ◌≡◌ {A = Result (Tally × List ℕ) SimulatedTradeExecutorError}
                  (ok (booked, ids ++ (t.id ∷ []))) (ok a') =
                rw yes_close at h in
              book_closed-TallyCovers a (to_closed t cfg.fee_perc time price) a.new_last_trade_time
                (ap (λ r. r >>= λ p. ok p.0) same) c
          | inr no_close ↦
              split_bind (keep_running cfg a t tsl) _ (rw no_close at h)
                λ b h1 k1. keep_running-TallyCovers a t tsl (h1 ∙ ap (λ r. r >>= λ p. ok p.0) k1) c
        ]

    pub close_trades-TallyCovers :
        (close : Close) (time : DateTime) (price : Price) (a : Tally × List ℕ)
        (es : List (Key × Entry)) {a' : Tally × List ℕ}
        → close_trades cfg close time price a es ≡ ok a'
        → TallyCovers cfg a.0
        → TallyCovers cfg a'.0
    unfolding close_trades
    close_trades-TallyCovers close time price a [] {a' = a'} h c =
        let same : a ≡ a' = cc in subst (λ x. TallyCovers cfg x.0) same c
    close_trades-TallyCovers close time price a ((k, e) ∷ es) h c =
        split_bind (close_trade cfg close time price a e)
          (λ b. close_trades cfg close time price b es) h
          λ b h1 k1.
            close_trades-TallyCovers close time price b es k1
              (close_trade-TallyCovers close time price a e h1 c)
