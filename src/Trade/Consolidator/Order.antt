-- ===== src/Trade/Consolidator/Order.antt =====
-- The candles of a consolidator's buffer come in the order of their buckets.
use quantoxide.Db.{OhlcCandleRow}
use quantoxide.Prelude.{
  Bool-cases, List, Option, [], arith, err_absurd, false, inl, inr, length, ltb, none, ok, ok_inj,
  refl, some, subst, sym, true, ℕ, ◌++◌, ◌<◌, ◌==◌, ◌∙◌, ◌∷◌, ◌≡◌,
}
use quantoxide.Sdk.{Sdk}
use quantoxide.Time.{DateTime}
use quantoxide.Trade.Consolidator.{
  BucketAccumulator, RuntimeConsolidator, add_candle, bucket_new, finalize_current_bucket,
  finalize_with, floor_to_bucket, push, push_at, set_last, start_bucket, sync_candles,
  sync_current_bucket, sync_with, to_candle_row, trim, trim_old_candles,
}
use quantoxide.Trade.Consolidator.Buffer.{finalize-lookback}

module _ ⦃sdk : Sdk⦄ where
  -- Each candle is later than the one before.
  unfoldable pub IsRising : List OhlcCandleRow → Type 0
  IsRising [] = Unit
  IsRising (c ∷ []) = Unit
  IsRising (c ∷ d ∷ cs) = (c.time < d.time) × IsRising (d ∷ cs)

  -- The last candle, if there is one, is before a time; there is one, and it is at a time.
  EndsBefore : DateTime → List OhlcCandleRow → Type 0
  EndsBefore t [] = Unit
  EndsBefore t (c ∷ []) = c.time < t
  EndsBefore t (c ∷ d ∷ cs) = EndsBefore t (d ∷ cs)

  unfoldable pub EndsAt : DateTime → List OhlcCandleRow → Type 0
  EndsAt t [] = ⊥
  EndsAt t (c ∷ []) = c.time ≡ t
  EndsAt t (c ∷ d ∷ cs) = EndsAt t (d ∷ cs)

  IsRising-tail : (c : OhlcCandleRow) (cs : List OhlcCandleRow) → IsRising (c ∷ cs) → IsRising cs
  unfolding IsRising
  IsRising-tail c [] h = tt
  IsRising-tail c (d ∷ cs) h = h.1

  trim-IsRising : (p : ℕ) (cs : List OhlcCandleRow) → IsRising cs → IsRising (trim p cs)
  unfolding trim
  trim-IsRising p [] h = h
  trim-IsRising p (c ∷ cs) h = elim (Bool-cases (ltb p (length (c ∷ cs)))) [
    | inl e ↦ rw e (trim-IsRising p cs (IsRising-tail c cs h))
    | inr e ↦ rw e h
  ]

  trim-EndsAt :
      (p : ℕ) (t : DateTime) (cs : List OhlcCandleRow) → 0 < p → EndsAt t cs → EndsAt t (trim p cs)
  unfolding trim EndsAt
  trim-EndsAt p t [] q h = h
  trim-EndsAt p t (c ∷ []) q h = let e : ltb p 1 ≡ false = ground arith in rw e h
  trim-EndsAt p t (c ∷ d ∷ cs) q h = elim (Bool-cases (ltb p (length (c ∷ d ∷ cs)))) [
    | inl e ↦ rw e (trim-EndsAt p t (d ∷ cs) q h)
    | inr e ↦ rw e h
  ]

  set_last-IsRising :
      (r : OhlcCandleRow) (t : DateTime) (cs : List OhlcCandleRow)
      → r.time ≡ t
      → EndsAt t cs
      → IsRising cs
      → IsRising (set_last r cs) × EndsAt t (set_last r cs)
  unfolding set_last EndsAt IsRising
  set_last-IsRising r t [] e h k = absurd h
  set_last-IsRising r t (c ∷ []) e h k = (tt, e)
  set_last-IsRising r t (c ∷ d ∷ []) e h k = (((subst (λ x. c.time < x) (h ∙ sym e) k.0), tt), e)
  set_last-IsRising r t (c ∷ d ∷ f ∷ cs) e h k =
      let rest = set_last-IsRising r t (d ∷ f ∷ cs) e h k.1 in ((k.0, rest.0), rest.1)

  EndsBefore-of_at :
      (t u : DateTime) (cs : List OhlcCandleRow) → t < u → EndsAt t cs → EndsBefore u cs
  unfolding EndsAt EndsBefore
  EndsBefore-of_at t u [] l h = absurd h
  EndsBefore-of_at t u (c ∷ []) l h = omega (arith, h, l)
  EndsBefore-of_at t u (c ∷ d ∷ cs) l h = EndsBefore-of_at t u (d ∷ cs) l h

  snoc-IsRising :
      (r : OhlcCandleRow) (cs : List OhlcCandleRow)
      → EndsBefore r.time cs
      → IsRising cs
      → IsRising (cs ++ (r ∷ [])) × EndsAt r.time (cs ++ (r ∷ []))
  unfolding EndsBefore EndsAt IsRising
  snoc-IsRising r [] h k = (tt, refl)
  snoc-IsRising r (c ∷ []) h k = ((h, tt), refl)
  snoc-IsRising r (c ∷ d ∷ cs) h k =
      let rest = snoc-IsRising r (d ∷ cs) h k.1 in ((k.0, rest.0), rest.1)

  -- Without a current bucket the buffer is empty; else its last candle is at the bucket's time.
  unfoldable pub BucketIsLast : Option BucketAccumulator → List OhlcCandleRow → Type 0
  BucketIsLast none candles = candles ≡ []
  BucketIsLast (some b) candles = EndsAt b.bucket_time candles

  abbrev pub IsOrdered : RuntimeConsolidator → Type 0
  IsOrdered s = IsRising s.candles × BucketIsLast s.current_bucket s.candles

  IsAfter : DateTime → Option BucketAccumulator → Type 0
  IsAfter time none = Unit
  IsAfter time (some b) = b.bucket_time < time

  finalize-EndsBefore :
      (time : DateTime) (o : Option BucketAccumulator) (s : RuntimeConsolidator)
      → 0 < s.lookback.period.as_u32
      → IsRising s.candles
      → BucketIsLast o s.candles
      → IsAfter time o
      → IsRising (finalize_with o s).candles × EndsBefore time (finalize_with o s).candles
  unfolding finalize_with trim_old_candles BucketIsLast IsAfter to_candle_row EndsBefore
  finalize-EndsBefore time none s p h l a = (h, subst (EndsBefore time) (sym l) tt)
  finalize-EndsBefore time (some b) s p h l a =
      let k = set_last-IsRising (to_candle_row true b) b.bucket_time s.candles refl l h in
      let kept = s.lookback.period.as_u32 in
      (
        trim-IsRising kept (set_last (to_candle_row true b) s.candles) k.0,
        EndsBefore-of_at b.bucket_time time _ a
            (trim-EndsAt kept b.bucket_time (set_last (to_candle_row true b) s.candles) p k.1),
      )

  start_bucket-IsOrdered :
      (time : DateTime) (c : OhlcCandleRow) (s : RuntimeConsolidator)
      → 0 < s.lookback.period.as_u32
      → IsRising s.candles
      → EndsBefore time s.candles
      → IsOrdered (start_bucket time c s)
  unfolding start_bucket trim_old_candles BucketIsLast to_candle_row add_candle bucket_new
  start_bucket-IsOrdered time c s p h b =
      let row = to_candle_row false (add_candle c (bucket_new time)) in
      let k = snoc-IsRising row s.candles b h in
      (
        trim-IsRising s.lookback.period.as_u32 (s.candles ++ (row ∷ [])) k.0,
        trim-EndsAt s.lookback.period.as_u32 time (s.candles ++ (row ∷ [])) p k.1,
      )

  restart-IsOrdered :
      (time : DateTime) (c : OhlcCandleRow) (o : Option BucketAccumulator) (s : RuntimeConsolidator)
      → 0 < s.lookback.period.as_u32
      → IsRising s.candles
      → BucketIsLast o s.candles
      → IsAfter time o
      → IsOrdered (start_bucket time c (finalize_with o s))
  restart-IsOrdered time c o s p h l a =
      let k = finalize-EndsBefore time o s p h l a in
      start_bucket-IsOrdered time c (finalize_with o s)
        (subst (λ l. 0 < l.period.as_u32) (sym (finalize-lookback o s)) p) k.0 k.1

  sync_candles-IsOrdered :
      (r : OhlcCandleRow) (t : DateTime) (cs : List OhlcCandleRow)
      → r.time ≡ t
      → EndsAt t cs
      → IsRising cs
      → IsRising (sync_candles r cs) × EndsAt t (sync_candles r cs)
  unfolding sync_candles EndsAt
  sync_candles-IsOrdered r t [] e h k = absurd h
  sync_candles-IsOrdered r t (c ∷ cs) e h k = set_last-IsRising r t (c ∷ cs) e h k

  push_at-IsOrdered :
      (time : DateTime) (c : OhlcCandleRow) (o : Option BucketAccumulator)
      (s r : RuntimeConsolidator)
      → 0 < s.lookback.period.as_u32
      → s.current_bucket ≡ o
      → IsOrdered s
      → push_at time c o s ≡ ok r
      → IsOrdered r
  unfolding push_at finalize_current_bucket sync_current_bucket sync_with BucketIsLast IsAfter
      to_candle_row add_candle
  push_at-IsOrdered time c none s r p e h k =
      subst IsOrdered (ok_inj k)
        (restart-IsOrdered time c s.current_bucket s p h.0 h.1 (subst (IsAfter time) (sym e) tt))
  push_at-IsOrdered time c (some b) s r p e h k = elim (Bool-cases (b.bucket_time == time)) [
    | inl same ↦ subst IsOrdered (ok_inj (rw same at k)) (
        sync_candles-IsOrdered (to_candle_row false (add_candle c b)) b.bucket_time s.candles refl
          (subst (λ o. BucketIsLast o s.candles) e h.1) h.0)
    | inr differs ↦ elim (Bool-cases (ltb time b.bucket_time)) [
      | inl back ↦ err_absurd (rw (differs, back) at k)
      | inr forth ↦
          let later : b.bucket_time < time = ground arith in
          subst IsOrdered (ok_inj (rw (differs, forth) at k)) (
            restart-IsOrdered time c s.current_bucket s p h.0 h.1
              (subst (IsAfter time) (sym e) later))
    ]
  ]

  -- Where the period is at least one candle: a push that succeeds keeps the candles of the buffer in
  -- strictly rising order of time, the last of them at the time of the current bucket.
  pub push-IsOrdered :
      (c : OhlcCandleRow) (s r : RuntimeConsolidator)
      → 0 < s.lookback.period.as_u32
      → IsOrdered s
      → push c s ≡ ok r
      → IsOrdered r
  unfolding push
  push-IsOrdered c s r p h k =
      push_at-IsOrdered (floor_to_bucket s c.time) c s.current_bucket s r p refl h k
