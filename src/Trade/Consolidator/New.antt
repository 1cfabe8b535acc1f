-- ===== src/Trade/Consolidator/New.antt =====
-- The consolidator over the initial candles, and the one for several resolutions.
use quantoxide.Db.{OhlcCandleRow}
use quantoxide.Prelude.{
  Bool, Bool-cases, List, Option, Result, [], err, false, if◌then◌else◌, inl, inr, ltb, none, ok,
  ok_inj, some, split_bind, subst, sym, unwrap_or, ◌++◌, ◌<◌, ◌>>=◌, ◌∷◌, ◌≡◌,
}
use quantoxide.Sdk.{Sdk}
use quantoxide.Shared.{Lookback, OhlcResolution, one_minute}
use quantoxide.Time.{DateTime}
use quantoxide.Trade.Consolidator.{
  BacktestError, RuntimeConsolidator, out_of_order_candle, push, start_bucket, trim_old_candles,
}
use quantoxide.Trade.Consolidator.Buffer.{IsSynced, push-IsSynced, push-lookback}

module _ ⦃sdk : Sdk⦄ where
  pub empty_consolidator : Lookback → RuntimeConsolidator
  empty_consolidator l = record { lookback = l; candles = []; current_bucket = none }

  -- The body of the loop for one-minute candles, after the check of the order.
  pub store_minute : DateTime → OhlcCandleRow → RuntimeConsolidator → RuntimeConsolidator
  store_minute time_cursor c s =
      if ltb c.time time_cursor
      then trim_old_candles record s { candles = s.candles ++ (c ∷ []) }
      else start_bucket c.time c s

  -- Whether a candle comes before the one kept last.
  pub is_out_of_order : Option DateTime → OhlcCandleRow → Bool
  is_out_of_order none c = false
  is_out_of_order (some prev_time) c = ltb c.time prev_time

  pub store_minutes :
      DateTime
      → Option DateTime
      → List OhlcCandleRow
      → RuntimeConsolidator
      → Result RuntimeConsolidator BacktestError
  store_minutes time_cursor last_time [] s = ok s
  store_minutes time_cursor last_time (c ∷ cs) s =
      if ltb time_cursor c.time
      then store_minutes time_cursor last_time cs s
      else if is_out_of_order last_time c
      then err (out_of_order_candle c.time (unwrap_or last_time c.time))
      else store_minutes time_cursor (some c.time) cs (store_minute time_cursor c s)

  -- The loop for the other resolutions.
  pub push_all :
      DateTime → List OhlcCandleRow → RuntimeConsolidator → Result RuntimeConsolidator BacktestError
  push_all time_cursor [] s = ok s
  push_all time_cursor (c ∷ cs) s =
      if ltb time_cursor c.time
      then push_all time_cursor cs s
      else push c s >>= λ r. push_all time_cursor cs r

  pub consolidator_new :
      Lookback → List OhlcCandleRow → DateTime → Result RuntimeConsolidator BacktestError
  consolidator_new l initial time_cursor = elim l.resolution [
    | one_minute ↦ store_minutes time_cursor none initial (empty_consolidator l)
    | _ ↦ push_all time_cursor initial (empty_consolidator l)
  ]

  pub push_each_with :
      OhlcCandleRow
      → OhlcResolution
      → RuntimeConsolidator
      → List (OhlcResolution × RuntimeConsolidator)
      → Result RuntimeConsolidator BacktestError
      → List (OhlcResolution × RuntimeConsolidator) × Result (Unit {0}) BacktestError
      → List (OhlcResolution × RuntimeConsolidator) × Result (Unit {0}) BacktestError
  push_each_with c r s m (err e) rest = ((r, s) ∷ m, err e)
  push_each_with c r s m (ok t) (rest, result) = ((r, t) ∷ rest, result)

  -- The map of consolidators, in the order its values are visited. A failed push leaves the
  -- consolidators before it with the candle.
  pub push_each :
      OhlcCandleRow
      → List (OhlcResolution × RuntimeConsolidator)
      → List (OhlcResolution × RuntimeConsolidator) × Result (Unit {0}) BacktestError
  push_each c [] = ([], ok tt)
  push_each c ((r, s) ∷ m) = push_each_with c r s m (push c s) (push_each c m)

  -- Where the period is at least one candle: gathering a list of candles up to a time, when it
  -- succeeds, keeps the buffer within the period and its last candle the incomplete row of the current
  -- bucket, if there is one.
  push_all-IsSynced :
      (cursor : DateTime) (cs : List OhlcCandleRow) (s r : RuntimeConsolidator)
      → 0 < s.lookback.period.as_u32
      → IsSynced s
      → push_all cursor cs s ≡ ok r
      → IsSynced r
  unfolding push_all
  push_all-IsSynced cursor [] s r p h k = subst IsSynced (ok_inj k) h
  push_all-IsSynced cursor (c ∷ cs) s r p h k = elim (Bool-cases (ltb cursor c.time)) [
    | inl after ↦ push_all-IsSynced cursor cs s r p h (rw after at k)
    | inr now ↦ split_bind (push c s) _ (rw now at k) λ t e f.
        push_all-IsSynced cursor cs t r
          (subst (λ l. 0 < l.period.as_u32) (sym (push-lookback c s t e)) p)
          (push-IsSynced c s t p h e) f
  ]
