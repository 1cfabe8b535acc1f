-- ===== src/Trade/Consolidator.antt =====
-- src/trade/backtest/consolidator.rs: one-minute candles gathered into candles of a resolution.
pub mod Bucket
pub mod Buffer
pub mod New
pub mod Order
use quantoxide.Dates.{floor_to_resolution}
use quantoxide.Db.{OhlcCandleRow}
use quantoxide.Prelude.{
  Bool, List, Option, Result, [], err, false, if◌then◌else◌, leb, length, ltb, none, ok, some, true,
  ℕ, ◌&&◌, ◌++◌, ◌==◌, ◌∷◌,
}
use quantoxide.Prelude.Int.{pos, ℤ}
use quantoxide.Prelude.Machine.{i64_add}
use quantoxide.Sdk.{Sdk}
use quantoxide.Shared.{Lookback}
use quantoxide.Time.{DateTime, max_utc, min_utc}

pub data BacktestError : Type 0 where
  out_of_order_candle : DateTime → DateTime → BacktestError  -- candle time, bucket time

-- The loop of `trim_old_candles`: the oldest candle goes while there are more than `period`.
unfoldable pub trim {ℓ} : {A : Type ℓ} → ℕ → List A → List A
trim period [] = []
trim period (c ∷ cs) = if ltb period (length (c ∷ cs)) then trim period cs else c ∷ cs

-- `*last = c`, where there is a last element.
unfoldable pub set_last {ℓ} : {A : Type ℓ} → A → List A → List A
set_last c [] = []
set_last c (x ∷ []) = c ∷ []
set_last c (x ∷ y ∷ xs) = x ∷ set_last c (y ∷ xs)

abbrev pub min_ℕ : ℕ → ℕ → ℕ
min_ℕ a b = if leb a b then a else b

abbrev pub max_ℕ : ℕ → ℕ → ℕ
max_ℕ a b = if leb a b then b else a

module _ ⦃sdk : Sdk⦄ where
  open sdk use {F64, f64_zero, f64_minimum, f64_maximum, f64_max, f64_min}

  pub record BucketAccumulator : Type 0 where
    pub bucket_time : DateTime
    pub first_candle_time : DateTime
    pub last_candle_time : DateTime
    pub open_price : F64
    pub high : F64
    pub low : F64
    pub close : F64
    pub volume : ℤ
    pub min_created_at : DateTime
    pub max_updated_at : DateTime
    pub all_stable : Bool

  unfoldable pub bucket_new : DateTime → BucketAccumulator
  bucket_new time = record {
    bucket_time = time;
    first_candle_time = max_utc;
    last_candle_time = min_utc;
    open_price = f64_zero;
    high = f64_minimum;
    low = f64_maximum;
    close = f64_zero;
    volume = pos 0;
    min_created_at = max_utc;
    max_updated_at = min_utc;
    all_stable = true;
  }

  unfoldable pub add_candle : OhlcCandleRow → BucketAccumulator → BucketAccumulator
  add_candle c b = record {
    bucket_time = b.bucket_time;
    first_candle_time = if ltb c.time b.first_candle_time then c.time else b.first_candle_time;
    last_candle_time = if ltb b.last_candle_time c.time then c.time else b.last_candle_time;
    open_price = if ltb c.time b.first_candle_time then c.open_price else b.open_price;
    high = f64_max b.high c.high;
    low = f64_min b.low c.low;
    close = if ltb b.last_candle_time c.time then c.close else b.close;
    volume = i64_add b.volume c.volume;
    min_created_at = min_ℕ b.min_created_at c.created_at;
    max_updated_at = max_ℕ b.max_updated_at c.updated_at;
    all_stable = b.all_stable && c.stable;
  }

  unfoldable pub to_candle_row : Bool → BucketAccumulator → OhlcCandleRow
  to_candle_row is_complete b = record {
    time = b.bucket_time;
    open_price = b.open_price;
    high = b.high;
    low = b.low;
    close = b.close;
    volume = b.volume;
    created_at = b.min_created_at;
    updated_at = b.max_updated_at;
    stable = b.all_stable && is_complete;
  }

  pub record RuntimeConsolidator : Type 0 where
    pub lookback : Lookback
    pub candles : List OhlcCandleRow
    pub current_bucket : Option BucketAccumulator

  unfoldable pub trim_old_candles : RuntimeConsolidator → RuntimeConsolidator
  trim_old_candles s = record s { candles = trim (s.lookback.period.as_u32) (s.candles) }

  -- `take` of the current bucket, which becomes the last candle.
  unfoldable pub finalize_with :
      Option BucketAccumulator → RuntimeConsolidator → RuntimeConsolidator
  finalize_with none s = s
  finalize_with (some current) s = trim_old_candles record s {
    current_bucket = none;
    candles = set_last (to_candle_row true current) (s.candles);
  }

  unfoldable pub finalize_current_bucket : RuntimeConsolidator → RuntimeConsolidator
  finalize_current_bucket s = finalize_with (s.current_bucket) s

  unfoldable pub sync_candles : OhlcCandleRow → List OhlcCandleRow → List OhlcCandleRow
  sync_candles c [] = c ∷ []
  sync_candles c (x ∷ xs) = set_last c (x ∷ xs)

  unfoldable pub sync_with : Option BucketAccumulator → RuntimeConsolidator → RuntimeConsolidator
  sync_with none s = s
  sync_with (some current) s = record s {
    candles = sync_candles (to_candle_row false current) (s.candles);
  }

  unfoldable pub sync_current_bucket : RuntimeConsolidator → RuntimeConsolidator
  sync_current_bucket s = sync_with (s.current_bucket) s

  unfoldable pub floor_to_bucket : RuntimeConsolidator → DateTime → DateTime
  floor_to_bucket s time = floor_to_resolution (s.lookback.resolution) time

  -- The tail of `push`, which starts a bucket.
  unfoldable pub start_bucket : DateTime → OhlcCandleRow → RuntimeConsolidator → RuntimeConsolidator
  start_bucket time c s =
      let bucket = add_candle c (bucket_new time) in
      trim_old_candles record s {
        candles = s.candles ++ (to_candle_row false bucket ∷ []);
        current_bucket = some bucket;
      }

  unfoldable pub push_at :
      DateTime
      → OhlcCandleRow
      → Option BucketAccumulator
      → RuntimeConsolidator
      → Result RuntimeConsolidator BacktestError
  push_at time c none s = ok (start_bucket time c (finalize_current_bucket s))
  push_at time c (some current) s =
      if current.bucket_time == time
      then ok (sync_current_bucket record s { current_bucket = some (add_candle c current) })
      else if ltb time current.bucket_time
      then err (out_of_order_candle c.time current.bucket_time)
      else ok (start_bucket time c (finalize_current_bucket s))

  unfoldable pub push :
      OhlcCandleRow → RuntimeConsolidator → Result RuntimeConsolidator BacktestError
  push c s = push_at (floor_to_bucket s c.time) c (s.current_bucket) s
