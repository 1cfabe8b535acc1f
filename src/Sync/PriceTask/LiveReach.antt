-- ===== src/Sync/PriceTask/LiveReach.antt =====
-- What the live download of candles ensures where it returns.
use quantoxide.Prelude.{
  All, All-map, Bool-cases, List, Option, [], ap, arith, false, head?, inl, inr, last?, ltb,
  map_err, none, ok, ok_inj, refl, some, some_inj, subst, sym, true, ℕ, ◌+◌, ◌-◌, ◌==◌, ◌∷◌, ◌≡◌,
  ◌≤◌,
}
use quantoxide.Prelude.Int.{ -ℤ_parts, leb_ℤ, pos, ◌-ℤ◌}
use quantoxide.Sync.CandlePage.{CandleStore, CandleTaskConfig, CandleTurn, fatal_history}
use quantoxide.Sync.PriceHistory.{
  PriceHistoryState, before_reach, history_new, next_download_range, tail_continuous_duration,
  tail_of,
}
use quantoxide.Sync.PriceHistory.Range.{IsStored}
use quantoxide.Sync.PriceHistory.Reach.{check_reach-ok, last-cons}
use quantoxide.Sync.PriceTask.{
  CandleWorld, bound_end, download_candles, initial_range, live_candles, live_candles_loop,
  reaches_back,
}
use quantoxide.Sync.PriceTask.Complete.{
  Any, Evaluates, anything-Ends, check_first_gap-ok, history_new-kept, report_history-Evaluates,
}
use quantoxide.Sync.Step.{Ends, of_result, then_step-Ends}
use quantoxide.Time.{DateTime}

-- The gaps follow one another from a time on.
abbrev pub RiseFrom : DateTime → List (DateTime × DateTime) → Type 0
RiseFrom start [] = Unit
RiseFrom start ((from, to) ∷ gs) = (start ≤ to) × RiseFrom to gs

-- What the program relies on in the query for gaps: they come in the order of their ends, which are
-- times of candles.
pub record GapLaws (store : CandleStore) : Type 1 where
  pub gaps_rise :
      (db : CandleStore.Tables store) (start end : DateTime)
      → CandleStore.candle_bounds store db ≡ some (start, end)
      → RiseFrom start (CandleStore.candle_gaps store db)

RiseFrom-last :
    (start : DateTime) (gs : List (DateTime × DateTime)) (g : DateTime × DateTime)
    → RiseFrom start gs
    → last? gs ≡ some g
    → (start ≤ g.1) × All (λ h. h.1 ≤ g.1) gs
RiseFrom-last start [] g r e = cc
RiseFrom-last start (h ∷ []) g r e =
    let same = some_inj e in rw (ap (λ x. x.1) (sym same)) (r.0, (omega arith, tt))
RiseFrom-last start (h ∷ k ∷ gs) g r e =
    let rest = RiseFrom-last (h.1) (k ∷ gs) g r.1 e in
    (omega (arith, r.0, rest.0), (rest.0, rest.1))

history_new-RiseFrom :
    (reach : Option DateTime) (start end : DateTime) (gs : List (DateTime × DateTime))
    (s : PriceHistoryState)
    → RiseFrom start gs
    → history_new reach (some (start, end)) gs ≡ ok s
    → RiseFrom start s.gaps
unfolding history_new
history_new-RiseFrom reach start end gs s r h = elim (Bool-cases (start == end)) [
  | inl e ↦
      let k = check_reach-ok start (before_reach reach start) _ s (rw e at h) in
      subst (λ (x : PriceHistoryState). RiseFrom start x.gaps) (ok_inj k) tt
  | inr e ↦
      let k = check_first_gap-ok reach (head? gs) _ s (rw e at h) in
      subst (λ (x : PriceHistoryState). RiseFrom start x.gaps) (ok_inj k) r
]

-- A difference that is at least the lookback.
lookback_fits :
    (lookback end from : ℕ)
    → leb_ℤ (pos lookback) (pos end -ℤ pos from) ≡ true
    → from + lookback ≤ end
lookback_fits lookback end from h =
    let parts = -ℤ_parts (pos end) (pos from) in ground (arith, parts, h)

tail_of-last :
    (start end : DateTime) (gs : List (DateTime × DateTime)) (g : DateTime × DateTime)
    → last? gs ≡ some g
    → tail_of gs (start, end) ≡ pos end -ℤ pos (g.1)
unfolding tail_of
tail_of-last start end gs g e =
    ap (λ o. elim o [ none ↦ pos end -ℤ pos start | some k ↦ pos end -ℤ pos (k.1) ]) e

-- A tail that is at least as long as the lookback begins after all gaps.
tail_of-clear :
    (lookback start end : DateTime) (gs : List (DateTime × DateTime))
    → RiseFrom start gs
    → leb_ℤ (pos lookback) (tail_of gs (start, end)) ≡ true
    → (start + lookback ≤ end) × All (λ g. g.1 + lookback ≤ end) gs
unfolding tail_of
tail_of-clear lookback start end [] r h = (lookback_fits lookback end start h, tt)
tail_of-clear lookback start end (g ∷ gs) r h =
    let (l, e) = last-cons g gs in
    let (after, before) = RiseFrom-last start (g ∷ gs) l r e in
    let fits =
      lookback_fits lookback end (l.1)
        (subst (λ d. leb_ℤ (pos lookback) d ≡ true) (tail_of-last start end (g ∷ gs) l e) h) in
    (
      omega (arith, after, fits),
      All-map (λ (k : DateTime × DateTime). k.1 ≤ l.1) _ (g ∷ gs) (λ k le. omega (arith, le, fits))
          before,
    )

-- All of the last part of the history, as long as the lookback, is stored.
tail_of-IsStored :
    (lookback start end : DateTime) (s : PriceHistoryState)
    → s.bounds ≡ some (start, end)
    → RiseFrom start s.gaps
    → leb_ℤ (pos lookback) (tail_of s.gaps (start, end)) ≡ true
    → IsStored s (end - lookback) end
tail_of-IsStored lookback start end s b r h =
    let (fits, clear) = tail_of-clear lookback start end s.gaps r h in
    (
      ((start, end), b, omega (arith, fits), omega arith),
      λ t.
          All-map (λ (g : DateTime × DateTime). g.1 + lookback ≤ end) _ s.gaps
            (λ g le hit. omega (arith, le, hit.0, hit.1, hit.2, hit.3)) clear,
    )

module _ ⦃store : CandleStore⦄ (laws : GapLaws store) (config : CandleTaskConfig)
    (lookback : ℕ) where
  open store use {candle_bounds, candle_gaps}

  -- The end of `live`: of the tables, as they are last evaluated, the last part of the history, as long
  -- as the lookback, is stored without a gap.
  abbrev pub ReachesBack : CandleWorld → Option PriceHistoryState → Type 0
  ReachesBack w none = Unit
  ReachesBack w (some s) =
      Evaluates config w s
      × ((start : DateTime) × (end : DateTime) × (candle_bounds w.tables ≡ some (start, end))
          × IsStored s (end - lookback) end)

  tail_of-ReachesBack :
      (w : CandleWorld) (s : PriceHistoryState) (o : Option (DateTime × DateTime))
      → Evaluates config w s
      → candle_bounds w.tables ≡ o
      → s.bounds ≡ o
      → reaches_back lookback (tail_continuous_duration s) ≡ true
      → ReachesBack w (some s)
  unfolding reaches_back tail_continuous_duration
  tail_of-ReachesBack w s none q c b h = let no_tail = rw b at h in cc
  tail_of-ReachesBack w s (some (start, end)) q c b h =
      let risen =
        history_new-RiseFrom (some config.price_history_reach) start end (candle_gaps w.tables) s
          (laws.gaps_rise w.tables start end c) (rw c at q) in
      (q, (start, end, c, tail_of-IsStored lookback start end s b risen (rw b at h)))

  reached_back :
      (w : CandleWorld) (s : PriceHistoryState)
      → Evaluates config w s
      → reaches_back lookback (tail_continuous_duration s) ≡ true
      → ReachesBack w (some s)
  reached_back w s q h =
      tail_of-ReachesBack w s (candle_bounds w.tables) q refl
        (history_new-kept (some config.price_history_reach) _ _ s q).0 h

  live_candles_loop-ReachesBack :
      (turns : List CandleTurn) (w : CandleWorld)
      → Ends (Any config) ReachesBack (live_candles_loop config lookback turns w)
  unfolding live_candles_loop
  live_candles_loop-ReachesBack [] w = (tt, tt)
  live_candles_loop-ReachesBack (turn ∷ turns) w =
      then_step-Ends (Any config) (Evaluates config) ReachesBack _ _
        (report_history-Evaluates config turn.receiver_listens w)
        (λ v s i q. elim (Bool-cases (reaches_back lookback (tail_continuous_duration s))) [
          | inl e ↦ rw e (tt, reached_back v s q e)
          | inr e ↦ rw e (
              then_step-Ends (Any config) (λ u range. Unit) ReachesBack _ _
                (anything-Ends config
                  (of_result (map_err fatal_history (next_download_range s false)) v))
                (λ u range j k.
                  then_step-Ends (Any config) (λ x a. Unit) ReachesBack _ _
                    (anything-Ends config (download_candles config turn range u))
                    (λ x a l m. live_candles_loop-ReachesBack turns x)))
        ])

  -- If the gaps come in the order of their ends: where the live download of candles returns, it has
  -- evaluated the tables last, and all of their history's last part, as long as the lookback, is
  -- stored, with no time of it inside a gap.
  pub live_candles-ReachesBack :
      (now : DateTime) (first : CandleTurn) (turns : List CandleTurn) (w : CandleWorld)
      → Ends (Any config) ReachesBack (live_candles config now lookback first turns w)
  unfolding live_candles
  live_candles-ReachesBack now first turns w =
      elim (Bool-cases (ltb (now - lookback) config.price_history_reach)) [
        | inl e ↦ rw e tt
        | inr e ↦ rw e (
            then_step-Ends (Any config) (Evaluates config) ReachesBack _ _
              (report_history-Evaluates config first.receiver_listens w)
              (λ v s i q.
                then_step-Ends (Any config) (λ u a. Unit) ReachesBack _ _
                  (anything-Ends config
                    (download_candles config first (initial_range (bound_end s)) v))
                  (λ u a j k. live_candles_loop-ReachesBack turns u)))
      ]
