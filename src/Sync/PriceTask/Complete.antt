-- ===== src/Sync/PriceTask/Complete.antt =====
-- What the download of candles ensures where it returns.
use quantoxide.Prelude.{
  Bool, Bool-cases, List, List-cases, Option, Option-cases, Result, [], ap, arith, err, false,
  head?, if◌then◌else◌, inl, inr, ltb, map_err, none, ok, ok_inj, refl, some, subst, sym, true, ℕ,
  ◌==◌, ◌∙◌, ◌∷◌, ◌≡◌, ◌≤◌, ◌⊎◌,
}
use quantoxide.Sync.CandlePage.{
  CandleFailure, CandleStore, CandleTaskConfig, CandleTurn, fatal_history,
}
use quantoxide.Sync.PriceHistory.{
  DownloadRange, PriceHistoryState, SyncPriceHistoryFatalError, before_reach, check_first_gap,
  has_gaps, history_new, is_empty, next_download_range,
}
use quantoxide.Sync.PriceHistory.Reach.{check_reach-ok}
use quantoxide.Sync.PriceTask.{
  CandleTurnEnd, CandleWorld, backfill_candles, backfill_candles_loop, backfill_candles_turn,
  bound_end, clear_ticks, download_candles, end_of, evaluate_history, fetches_latest, flag_gaps,
  goes_on, handle_history_update, is_done, report_history, write_tables,
}
use quantoxide.Sync.Step.{Ends, map_err-Ends, of_result, pure, then_step-Ends, ◌>>◌}
use quantoxide.Time.{DateTime}

pub check_first_gap-ok {ℓ} :
    {A : Type ℓ} (reach : Option DateTime) (g : Option (DateTime × DateTime))
    (r : Result A SyncPriceHistoryFatalError) (x : A)
    → check_first_gap reach g r ≡ ok x
    → r ≡ ok x
unfolding check_first_gap
check_first_gap-ok reach none r x h = h
check_first_gap-ok reach (some (from, to)) r x h =
    check_reach-ok from (before_reach reach from) r x h

-- What a successful scan keeps of what it reads.
pub history_new-kept :
    (reach : Option DateTime) (b : Option (DateTime × DateTime)) (gs : List (DateTime × DateTime))
    (s : PriceHistoryState)
    → history_new reach b gs ≡ ok s
    → (s.bounds ≡ b) × (s.reach_time ≡ reach)
unfolding history_new
history_new-kept reach none gs s h =
    (ap (λ x. x.bounds) (sym (ok_inj h)), ap (λ x. x.reach_time) (sym (ok_inj h)))
history_new-kept reach (some (earliest, lastest)) gs s h = elim (Bool-cases (earliest == lastest)) [
  | inl e ↦
      let same : earliest ≡ lastest = ground arith in
      let k = check_reach-ok earliest (before_reach reach earliest) _ s (rw e at h) in
      (
        ap (λ x. x.bounds) (sym (ok_inj k)) ∙ ap (λ t. some (earliest, t)) same,
        ap (λ x. x.reach_time) (sym (ok_inj k)),
      )
  | inr e ↦
      let k = check_first_gap-ok reach (head? gs) _ s (rw e at h) in
      (ap (λ x. x.bounds) (sym (ok_inj k)), ap (λ x. x.reach_time) (sym (ok_inj k)))
]

-- A state without gaps in which the history goes back to the reach time.
pub has_gaps-false :
    (s : PriceHistoryState) (reach : DateTime)
    → s.reach_time ≡ some reach
    → has_gaps s ≡ ok false
    → (b : DateTime × DateTime) × (s.bounds ≡ some b) × (s.gaps ≡ []) × (b.0 ≤ reach)
unfolding has_gaps is_empty
has_gaps-false s reach at_reach h = elim (Option-cases s.bounds) [
  | inl e ↦ let lacks = ok_inj (rw (at_reach, e) at h) in cc
  | inr (b, e) ↦ elim (List-cases s.gaps) [
    | inl complete ↦
        let early : ltb reach b.0 ≡ false = ok_inj (rw (at_reach, e, complete) at h) in
        (b, e, complete, ground arith)
    | inr (g, gs, lacks) ↦ let none_lacks = ok_inj (rw (at_reach, e, lacks) at h) in cc
  ]
]

module _ ⦃store : CandleStore⦄ (config : CandleTaskConfig) where
  open store use {Tables, candle_bounds, candle_gaps, remove_ticks}

  -- The end of a backfill: the last evaluation found no gap, the stored history goes back to the reach
  -- time, and the ticks up to its end were removed after it.
  pub record IsComplete (w : CandleWorld) (s : PriceHistoryState) : Type 0 where
    pub evaluated_over : Tables
    pub start : DateTime
    pub end : DateTime
    pub evaluated :
        history_new
          (some config.price_history_reach)
          (candle_bounds evaluated_over)
          (candle_gaps evaluated_over)
        ≡ ok s
    pub stored : candle_bounds evaluated_over ≡ some (start, end)
    pub complete : s.gaps ≡ []
    pub reached : start ≤ config.price_history_reach
    pub cleared : w.tables ≡ remove_ticks end evaluated_over

  abbrev pub Any : CandleWorld → Type 0
  Any w = Unit

  -- The state that an evaluation gives over the tables of a world.
  abbrev pub Evaluates : CandleWorld → PriceHistoryState → Type 0
  Evaluates w s =
      history_new (some config.price_history_reach) (candle_bounds w.tables) (candle_gaps w.tables)
      ≡ ok s

  pub report_history-Evaluates :
      (listens : Bool) (w : CandleWorld) → Ends Any Evaluates (report_history config listens w)
  unfolding report_history evaluate_history handle_history_update
  report_history-Evaluates listens w =
      then_step-Ends Any Evaluates Evaluates _ _
        (map_err-Ends Any Evaluates fatal_history _ w tt (λ s e. e))
        (λ v s i q. elim (Bool-cases listens) [ inl e ↦ rw e (tt, q) | inr e ↦ rw e tt ])

  clear_ticks-IsComplete :
      (w : CandleWorld) (s : PriceHistoryState)
      → Evaluates w s
      → has_gaps s ≡ ok false
      → Ends Any (λ v a. IsComplete v s) (clear_ticks (bound_end s) w)
  unfolding clear_ticks bound_end write_tables
  clear_ticks-IsComplete w s q h =
      let kept = history_new-kept (some config.price_history_reach) _ _ s q in
      let (b, bounds, complete, reached) = has_gaps-false s config.price_history_reach kept.1 h in
      subst (λ o. Ends Any (λ v a. IsComplete v s) (clear_ticks o w)) (sym (ap end_of bounds))
        (
          tt,
          record {
            evaluated_over = w.tables;
            start = b.0;
            end = b.1;
            evaluated = q;
            stored = sym kept.0 ∙ bounds;
            complete = complete;
            reached = reached;
            cleared = refl;
          },
        )

  abbrev AtTurnEnd : CandleWorld → CandleTurnEnd → Type 0
  AtTurnEnd w (goes_on s) = Unit
  AtTurnEnd w (is_done s) = IsComplete w s

  pub anything-Ends :
      {A : Type 0} (r : CandleWorld × Result A CandleFailure) → Ends Any (λ v a. Unit) r
  anything-Ends (w, ok a) = (tt, tt)
  anything-Ends (w, err e) = tt

  finish_turn-AtTurnEnd :
      (range : DownloadRange) (s : PriceHistoryState) (lacks : Bool) (w : CandleWorld)
      → Evaluates w s
      → has_gaps s ≡ ok lacks
      → Ends Any AtTurnEnd (
          (if lacks
              then pure (goes_on s)
              else if fetches_latest range
              then (clear_ticks (bound_end s) >> pure (is_done s))
              else pure (goes_on s))
            w)
  finish_turn-AtTurnEnd range s true w q h = (tt, tt)
  finish_turn-AtTurnEnd range s false w q h = elim (Bool-cases (fetches_latest range)) [
    | inl e ↦ rw e (
        then_step-Ends Any (λ v a. IsComplete v s) AtTurnEnd _ _ (clear_ticks-IsComplete w s q h)
          (λ v a i k. (tt, k)))
    | inr e ↦ rw e (tt, tt)
  ]

  backfill_candles_turn-AtTurnEnd :
      (turn : CandleTurn) (s : PriceHistoryState) (w : CandleWorld)
      → Ends Any AtTurnEnd (backfill_candles_turn config turn s w)
  unfolding backfill_candles_turn
  backfill_candles_turn-AtTurnEnd turn s w =
      then_step-Ends Any (λ v range. Unit) AtTurnEnd _ _
        (anything-Ends (of_result (map_err fatal_history (next_download_range s true)) w))
        (λ v range i q.
          then_step-Ends Any (λ v a. Unit) AtTurnEnd _ _
            (anything-Ends (download_candles config turn range v))
            (λ u a i' q'.
              then_step-Ends Any Evaluates AtTurnEnd _ _
                (report_history-Evaluates turn.receiver_listens u)
                (λ x n j k.
                  then_step-Ends Any (λ v lacks. Evaluates v n × (has_gaps n ≡ ok lacks)) AtTurnEnd
                    _ _
                    (map_err-Ends Any (λ v lacks. Evaluates v n × (has_gaps n ≡ ok lacks))
                      fatal_history (has_gaps n) x tt (λ lacks e. (k, e)))
                    (λ y lacks l m. finish_turn-AtTurnEnd range n lacks y m.0 m.1))))

  CandleTurnEnd-cases :
      (end : CandleTurnEnd)
      → ((s : PriceHistoryState) × (end ≡ goes_on s))
        ⊎ ((s : PriceHistoryState) × (end ≡ is_done s))
  CandleTurnEnd-cases (goes_on s) = inl (s, refl)
  CandleTurnEnd-cases (is_done s) = inr (s, refl)

  -- What a backfill ensures that has returned, or still runs.
  abbrev pub AtCandleReturn : CandleWorld → Option PriceHistoryState → Type 0
  AtCandleReturn w none = Unit
  AtCandleReturn w (some s) = IsComplete w s

  backfill_candles_loop-AtCandleReturn :
      (turns : List CandleTurn) (s : PriceHistoryState) (w : CandleWorld)
      → Ends Any AtCandleReturn (backfill_candles_loop config turns s w)
  unfolding backfill_candles_loop
  backfill_candles_loop-AtCandleReturn [] s w = (tt, tt)
  backfill_candles_loop-AtCandleReturn (turn ∷ turns) s w =
      then_step-Ends Any AtTurnEnd AtCandleReturn _ _ (backfill_candles_turn-AtTurnEnd turn s w)
        (λ v end i q. elim (CandleTurnEnd-cases end) [
          | inl (next, e) ↦ rw e (backfill_candles_loop-AtCandleReturn turns next v)
          | inr (last, e) ↦ rw e (tt, rw e at q)
        ])

  -- Where a backfill of candles returns, its last evaluation found no gap in the tables, which go back
  -- to the reach time, and the ticks up to their end were removed after that.
  pub backfill_candles-AtCandleReturn :
      (flag_gaps_range : Option ℕ) (listens : Bool) (turns : List CandleTurn) (w : CandleWorld)
      → Ends Any AtCandleReturn (backfill_candles config flag_gaps_range listens turns w)
  unfolding backfill_candles
  backfill_candles-AtCandleReturn flag_gaps_range listens turns w =
      then_step-Ends Any (λ v a. Unit) AtCandleReturn _ _
        (anything-Ends (flag_gaps flag_gaps_range w))
        (λ v a i q.
          then_step-Ends Any Evaluates AtCandleReturn _ _ (report_history-Evaluates listens v)
            (λ u s j k. backfill_candles_loop-AtCandleReturn turns s u))
