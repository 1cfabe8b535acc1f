-- ===== src/Examples/History.antt =====
-- The price history and the consolidator at concrete inputs.
use quantoxide.Dates.{floor_to_resolution, truncate_secs}
use quantoxide.Db.{OhlcCandleRow}
use quantoxide.Examples.ToySdk.{toy_sdk}
use quantoxide.Prelude.{[], arith, false, none, ok, refl, some, true, ℕ, ◌*◌, ◌+◌, ◌↔◌, ◌∷◌, ◌≡◌}
use quantoxide.Prelude.Int.{pos, ◌+ℤ◌, ◌-ℤ◌}
use quantoxide.Prelude.Machine.{wrap_i64}
use quantoxide.Shared.{Lookback, as_minutes, as_seconds, five_minutes}
use quantoxide.Sync.PriceHistory.{
  PriceHistoryState, before_reach, check_reach, close_gap, extend_bounds, gap, has_gaps,
  is_range_available, next_download_range, next_in,
}
use quantoxide.Sync.PriceHistory.Range.{IsStored, is_range_available-exact}
use quantoxide.Sync.PriceHistory.Reach.{next_download_range-has_gaps}
use quantoxide.Time.{minute, unix_epoch}
use quantoxide.Trade.Consolidator.{
  BucketAccumulator, RuntimeConsolidator, add_candle, bucket_new, finalize_current_bucket,
  finalize_with, floor_to_bucket, push, push_at, set_last, start_bucket, sync_candles,
  sync_current_bucket, sync_with, to_candle_row, trim, trim_old_candles,
}
use quantoxide.Trade.Consolidator.Bucket.{
  RiseFrom, add_all, bucket-row, last_close, max_high, min_low, total_volume,
}
use quantoxide.Trade.Consolidator.Buffer.{IsSynced, push-IsSynced}
use quantoxide.Trade.Consolidator.Order.{BucketIsLast, EndsAt, IsOrdered, IsRising, push-IsOrdered}

abbrev stored : PriceHistoryState
stored = record { reach_time = some 100; bounds = some (100, 200); gaps = (120, 130) ∷ [] }

is_range_available-exact_example :
    (is_range_available stored 130 200 ≡ ok true) ↔ IsStored stored 130 200
is_range_available-exact_example =
    is_range_available-exact stored 130 200 (omega arith) (omega arith, tt)

next_download_range-has_gaps_example : has_gaps stored ≡ ok true
unfolding before_reach check_reach close_gap extend_bounds next_download_range next_in ◌+ℤ◌ ◌-ℤ◌
next_download_range-has_gaps_example =
    next_download_range-has_gaps stored 100 false (gap 120 130) refl refl

-- One-minute candles at a number of minutes from a Monday on.
abbrev candle_at : ℕ → OhlcCandleRow ⦃sdk = toy_sdk⦄
candle_at n = record {
  time = unix_epoch + n * minute;
  open_price = pos 100;
  high = pos 110;
  low = pos 90;
  close = pos 105;
  volume = pos 7;
  created_at = unix_epoch;
  updated_at = unix_epoch;
  stable = true;
}

bucket-row_example :
    let row = to_candle_row ⦃sdk = toy_sdk⦄ true (
      add_all ⦃sdk = toy_sdk⦄
        (candle_at 0 ∷ candle_at 1 ∷ [])
        (bucket_new ⦃sdk = toy_sdk⦄ unix_epoch)) in
    (row.time ≡ unix_epoch)
    × (row.open_price ≡ pos 100)
    × (row.high ≡ max_high ⦃sdk = toy_sdk⦄ (toy_sdk.f64_minimum) (candle_at 0 ∷ candle_at 1 ∷ []))
    × (row.low ≡ min_low ⦃sdk = toy_sdk⦄ (toy_sdk.f64_maximum) (candle_at 0 ∷ candle_at 1 ∷ []))
    × (row.close ≡ last_close ⦃sdk = toy_sdk⦄ (pos 105) (candle_at 1 ∷ []))
    × (row.volume ≡ wrap_i64 (total_volume ⦃sdk = toy_sdk⦄ (candle_at 0 ∷ candle_at 1 ∷ [])))
unfolding RiseFrom
bucket-row_example =
    bucket-row ⦃sdk = toy_sdk⦄ unix_epoch (candle_at 0) (candle_at 1 ∷ []) (omega arith)
      (omega arith) (omega arith, tt)

abbrev two_candles : Lookback
two_candles = record { resolution = five_minutes; period = record { as_u32 = 2 } }

abbrev nothing_yet : RuntimeConsolidator ⦃sdk = toy_sdk⦄
nothing_yet = record { lookback = two_candles; candles = []; current_bucket = none }

abbrev first_bucket : BucketAccumulator ⦃sdk = toy_sdk⦄
first_bucket = add_candle ⦃sdk = toy_sdk⦄ (candle_at 0) (bucket_new ⦃sdk = toy_sdk⦄ unix_epoch)

abbrev one_pushed : RuntimeConsolidator ⦃sdk = toy_sdk⦄
one_pushed = record {
  lookback = two_candles;
  candles = to_candle_row ⦃sdk = toy_sdk⦄ false first_bucket ∷ [];
  current_bucket = some first_bucket;
}

push-IsSynced_example : IsSynced ⦃sdk = toy_sdk⦄ one_pushed
unfolding add_candle as_minutes as_seconds bucket_new finalize_current_bucket finalize_with
    floor_to_bucket floor_to_resolution push push_at set_last start_bucket sync_candles
    sync_current_bucket sync_with to_candle_row trim trim_old_candles truncate_secs wrap_i64 ◌+ℤ◌
    ◌-ℤ◌
push-IsSynced_example =
    push-IsSynced ⦃sdk = toy_sdk⦄ (candle_at 0) nothing_yet one_pushed (omega arith)
      (omega arith, tt) refl

-- Five minutes later a bucket begins.
abbrev second_bucket : BucketAccumulator ⦃sdk = toy_sdk⦄
second_bucket =
    add_candle ⦃sdk = toy_sdk⦄ (candle_at 6) (bucket_new ⦃sdk = toy_sdk⦄ (unix_epoch + 5 * minute))

abbrev two_pushed : RuntimeConsolidator ⦃sdk = toy_sdk⦄
two_pushed = record {
  lookback = two_candles;
  candles =
      to_candle_row ⦃sdk = toy_sdk⦄ true first_bucket
      ∷ to_candle_row ⦃sdk = toy_sdk⦄ false second_bucket
      ∷ [];
  current_bucket = some second_bucket;
}

push-IsOrdered_example : IsOrdered ⦃sdk = toy_sdk⦄ two_pushed
unfolding BucketIsLast EndsAt IsRising add_candle as_minutes as_seconds bucket_new
    finalize_current_bucket finalize_with floor_to_bucket floor_to_resolution push push_at set_last
    start_bucket sync_candles sync_current_bucket sync_with to_candle_row trim trim_old_candles
    truncate_secs wrap_i64 ◌+ℤ◌ ◌-ℤ◌
push-IsOrdered_example =
    push-IsOrdered ⦃sdk = toy_sdk⦄ (candle_at 6) one_pushed two_pushed (omega arith) (tt, refl) refl
