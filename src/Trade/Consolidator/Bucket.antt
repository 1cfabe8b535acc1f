-- ===== src/Trade/Consolidator/Bucket.antt =====
-- The candle that a bucket's one-minute candles make.
use quantoxide.Db.{OhlcCandleRow}
use quantoxide.Prelude.{List, [], ap, arith, false, ltb, refl, sym, true, ◌<◌, ◌∙◌, ◌∷◌, ◌≡◌, ◌≤◌}
use quantoxide.Prelude.Int.{int_laws, pos, ℤ, ◌+ℤ◌}
use quantoxide.Prelude.Machine.{i64_add, wrap-bounds, wrap_add_left, wrap_i64, wrap_of_i64}
use quantoxide.Sdk.{Sdk}
use quantoxide.Time.{DateTime, max_utc, min_utc}
use quantoxide.Trade.Consolidator.{BucketAccumulator, add_candle, bucket_new, to_candle_row}

module _ ⦃sdk : Sdk⦄ where
  open sdk use {F64, f64_minimum, f64_maximum, f64_max, f64_min}

  -- The one-minute candles of a bucket, the first of them apart, in the order they come.
  pub add_all : List OhlcCandleRow → BucketAccumulator → BucketAccumulator
  add_all [] b = b
  add_all (c ∷ cs) b = add_all cs (add_candle c b)

  -- The times rise from a bound on.
  unfoldable pub RiseFrom : DateTime → List OhlcCandleRow → Type 0
  RiseFrom t [] = Unit
  RiseFrom t (c ∷ cs) = (t < c.time) × RiseFrom c.time cs

  pub max_high : F64 → List OhlcCandleRow → F64
  max_high x [] = x
  max_high x (c ∷ cs) = max_high (f64_max x c.high) cs

  pub min_low : F64 → List OhlcCandleRow → F64
  min_low x [] = x
  min_low x (c ∷ cs) = min_low (f64_min x c.low) cs

  pub last_close : F64 → List OhlcCandleRow → F64
  last_close x [] = x
  last_close x (c ∷ cs) = last_close c.close cs

  pub total_volume : List OhlcCandleRow → ℤ
  total_volume [] = pos 0
  total_volume (c ∷ cs) = c.volume +ℤ total_volume cs

  abbrev IsCandleOf : BucketAccumulator → F64 → List OhlcCandleRow → BucketAccumulator → Type 0
  IsCandleOf b open_price cs r =
      (r.bucket_time ≡ b.bucket_time)
      × (r.open_price ≡ open_price)
      × (r.high ≡ max_high b.high cs)
      × (r.low ≡ min_low b.low cs)
      × (r.close ≡ last_close b.close cs)
      × (r.volume ≡ wrap_i64 (b.volume +ℤ total_volume cs))

  volume_assoc : (a c total : ℤ) → wrap_i64 (i64_add a c +ℤ total) ≡ wrap_i64 (a +ℤ (c +ℤ total))
  volume_assoc a c total = wrap_add_left (a +ℤ c) total ∙ ap wrap_i64 (omega (int_laws))

  -- Candles that come in the order of time, after those that are in a bucket, add to it a high, a
  -- low, a close and a volume, and leave its open as it is.
  pub add_all-IsCandle :
      (cs : List OhlcCandleRow) (b : BucketAccumulator)
      → RiseFrom b.last_candle_time cs
      → b.first_candle_time ≤ b.last_candle_time
      → wrap_i64 b.volume ≡ b.volume
      → IsCandleOf b b.open_price cs (add_all cs b)
  unfolding add_all RiseFrom max_high min_low last_close total_volume add_candle
  add_all-IsCandle [] b h k w =
      (refl, refl, refl, refl, refl, sym w ∙ ap wrap_i64 (omega (int_laws)))
  add_all-IsCandle (c ∷ cs) b h k w =
      let later : ltb b.last_candle_time c.time ≡ true = ground (arith, h.0) in
      let not_first : ltb c.time b.first_candle_time ≡ false = ground (arith, h.0) in
      let r =
        add_all-IsCandle cs (add_candle c b) (rw later h.1)
          (rw (later, not_first) (ground (arith, h.0)))
          (wrap_of_i64 _ (wrap-bounds (b.volume +ℤ c.volume)).0
            (wrap-bounds (b.volume +ℤ c.volume)).1) in
      (
        r.0,
        r.1 ∙ rw not_first refl,
        r.2,
        r.3,
        r.4 ∙ rw later refl,
        r.5 ∙ volume_assoc b.volume c.volume (total_volume cs),
      )

  -- The candle of a bucket that one-minute candles are added to in the order of time: it opens with the
  -- first of them and closes with the last, its high and low are taken over all of them, and its
  -- volume is their sum, wrapped to an i64.
  pub bucket-row :
      (time : DateTime) (c : OhlcCandleRow) (cs : List OhlcCandleRow)
      → min_utc < c.time
      → c.time < max_utc
      → RiseFrom c.time cs
      → let row = to_candle_row true (add_all (c ∷ cs) (bucket_new time)) in
        (row.time ≡ time)
        × (row.open_price ≡ c.open_price)
        × (row.high ≡ max_high f64_minimum (c ∷ cs))
        × (row.low ≡ min_low f64_maximum (c ∷ cs))
        × (row.close ≡ last_close c.close cs)
        × (row.volume ≡ wrap_i64 (total_volume (c ∷ cs)))
  unfolding add_all to_candle_row add_candle bucket_new max_high min_low total_volume
  bucket-row time c cs lo hi h =
      let later : ltb min_utc c.time ≡ true = ground (arith, lo) in
      let first : ltb c.time max_utc ≡ true = ground (arith, hi) in
      let r =
        add_all-IsCandle cs (add_candle c (bucket_new time)) (rw later h)
          (rw (later, first) (omega arith))
          (wrap_of_i64 _ (wrap-bounds (pos 0 +ℤ c.volume)).0 (wrap-bounds (pos 0 +ℤ c.volume)).1) in
      (
        r.0,
        r.1 ∙ rw first refl,
        r.2,
        r.3,
        r.4 ∙ rw later refl,
        r.5 ∙ volume_assoc (pos 0) c.volume (total_volume cs) ∙ ap wrap_i64 (omega (int_laws)),
      )
