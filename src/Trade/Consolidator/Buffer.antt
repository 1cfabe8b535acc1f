-- ===== src/Trade/Consolidator/Buffer.antt =====
-- The buffer of a consolidator: its length, and its last candle.
use quantoxide.Db.{OhlcCandleRow}
use quantoxide.Prelude.{
  Bool-cases, List, Option, [], ap, arith, err_no_value, false, inl, inr, last?, length, ltb, none,
  ok, ok_inj, refl, some, subst, sym, ℕ, ◌++◌, ◌<◌, ◌==◌, ◌∙◌, ◌∷◌, ◌≡◌, ◌≤◌,
}
use quantoxide.Sdk.{Sdk}
use quantoxide.Time.{DateTime}
use quantoxide.Trade.Consolidator.{
  BucketAccumulator, RuntimeConsolidator, add_candle, finalize_current_bucket, finalize_with,
  floor_to_bucket, push, push_at, set_last, start_bucket, sync_candles, sync_current_bucket,
  sync_with, to_candle_row, trim, trim_old_candles,
}

module _ {ℓ} {A : Type ℓ} where
  pub length-trim : (p : ℕ) (xs : List A) → length (trim p xs) ≤ p
  unfolding trim
  length-trim p [] = omega arith
  length-trim p (x ∷ xs) = ground (arith, length-trim p xs)

  pub last-trim : (p : ℕ) (xs : List A) → 0 < p → last? (trim p xs) ≡ last? xs
  unfolding trim
  last-trim p [] h = refl
  last-trim p (x ∷ []) h = ground arith
  last-trim p (x ∷ y ∷ xs) h = ground (arith, last-trim p (y ∷ xs))

  length-set_last : (c : A) (xs : List A) → length (set_last c xs) ≡ length xs
  unfolding set_last
  length-set_last c [] = refl
  length-set_last c (x ∷ []) = refl
  length-set_last c (x ∷ y ∷ xs) = omega (arith, length-set_last c (y ∷ xs))

  last-set_last : (c x : A) (xs : List A) → last? (set_last c (x ∷ xs)) ≡ some c
  unfolding set_last
  last-set_last c x [] = refl
  last-set_last c x (y ∷ []) = refl
  last-set_last c x (y ∷ z ∷ xs) = last-set_last c y (z ∷ xs)

  last-snoc : (c : A) (xs : List A) → last? (xs ++ (c ∷ [])) ≡ some c
  last-snoc c [] = refl
  last-snoc c (x ∷ []) = refl
  last-snoc c (x ∷ y ∷ xs) = last-snoc c (y ∷ xs)

module _ ⦃sdk : Sdk⦄ where
  -- The last candle is the row of the current bucket, if there is one.
  abbrev pub EndsWith : Option BucketAccumulator → List OhlcCandleRow → Type 0
  EndsWith none candles = Unit
  EndsWith (some b) candles = last? candles ≡ some (to_candle_row false b)

  -- The buffer is no longer than the period, and the current bucket is in sync with its end.
  abbrev pub IsSynced : RuntimeConsolidator → Type 0
  IsSynced s = (length s.candles ≤ s.lookback.period.as_u32) × EndsWith s.current_bucket s.candles

  start_bucket-IsSynced :
      (time : DateTime) (c : OhlcCandleRow) (s : RuntimeConsolidator)
      → 0 < s.lookback.period.as_u32
      → IsSynced (start_bucket time c s)
  unfolding start_bucket trim_old_candles
  start_bucket-IsSynced time c s p = (length-trim _ _, last-trim _ _ p ∙ last-snoc _ s.candles)

  pub finalize-lookback :
      (o : Option BucketAccumulator) (s : RuntimeConsolidator)
      → (finalize_with o s).lookback ≡ s.lookback
  unfolding finalize_with trim_old_candles
  finalize-lookback none s = refl
  finalize-lookback (some b) s = refl

  sync_candles-keeps :
      (c x : OhlcCandleRow) (xs : List OhlcCandleRow)
      → last? xs ≡ some x
      → (length (sync_candles c xs) ≡ length xs) × (last? (sync_candles c xs) ≡ some c)
  unfolding sync_candles
  sync_candles-keeps c x [] h = cc
  sync_candles-keeps c x (y ∷ xs) h = (length-set_last c (y ∷ xs), last-set_last c y xs)

  sync-IsSynced :
      (b d : BucketAccumulator) (s : RuntimeConsolidator)
      → IsSynced s
      → s.current_bucket ≡ some b
      → IsSynced (sync_current_bucket record s { current_bucket = some d })
  unfolding sync_current_bucket sync_with
  sync-IsSynced b d s h e =
      let k =
        sync_candles-keeps (to_candle_row false d) (to_candle_row false b) s.candles
          (subst (λ o. EndsWith o s.candles) e h.1) in
      (rw (k.0) (h.0), k.1)

  restart-IsSynced :
      (time : DateTime) (c : OhlcCandleRow) (o : Option BucketAccumulator) (s : RuntimeConsolidator)
      → 0 < s.lookback.period.as_u32
      → IsSynced (start_bucket time c (finalize_with o s))
  restart-IsSynced time c o s p =
      start_bucket-IsSynced time c (finalize_with o s)
        (subst (λ l. 0 < l.period.as_u32) (sym (finalize-lookback o s)) p)

  push_at-IsSynced :
      (time : DateTime) (c : OhlcCandleRow) (o : Option BucketAccumulator)
      (s r : RuntimeConsolidator)
      → 0 < s.lookback.period.as_u32
      → s.current_bucket ≡ o
      → IsSynced s
      → push_at time c o s ≡ ok r
      → IsSynced r
  unfolding push_at finalize_current_bucket
  push_at-IsSynced time c none s r p e h k =
      subst IsSynced (ok_inj k) (restart-IsSynced time c s.current_bucket s p)
  push_at-IsSynced time c (some b) s r p e h k = elim (Bool-cases (b.bucket_time == time)) [
    | inl same ↦ subst IsSynced (ok_inj (rw same at k)) (sync-IsSynced b (add_candle c b) s h e)
    | inr differs ↦ elim (Bool-cases (ltb time b.bucket_time)) [
      | inl back ↦ subst IsSynced (err_no_value s (rw (differs, back) at k)) h
      | inr forth ↦
          subst IsSynced (ok_inj (rw (differs, forth) at k))
            (restart-IsSynced time c s.current_bucket s p)
    ]
  ]

  -- Where the period is at least one candle: a push that succeeds keeps the buffer within the period
  -- and, while there is a current bucket, its last candle the incomplete row of that bucket.
  pub push-IsSynced :
      (c : OhlcCandleRow) (s r : RuntimeConsolidator)
      → 0 < s.lookback.period.as_u32
      → IsSynced s
      → push c s ≡ ok r
      → IsSynced r
  unfolding push
  push-IsSynced c s r p h k =
      push_at-IsSynced (floor_to_bucket s c.time) c s.current_bucket s r p refl h k

  push_at-lookback :
      (time : DateTime) (c : OhlcCandleRow) (o : Option BucketAccumulator)
      (s r : RuntimeConsolidator)
      → push_at time c o s ≡ ok r
      → r.lookback ≡ s.lookback
  unfolding push_at finalize_current_bucket start_bucket trim_old_candles sync_current_bucket
      sync_with
  push_at-lookback time c none s r k =
      ap (λ x. x.lookback) (sym (ok_inj k)) ∙ finalize-lookback s.current_bucket s
  push_at-lookback time c (some b) s r k = elim (Bool-cases (b.bucket_time == time)) [
    | inl same ↦ ap (λ x. x.lookback) (sym (ok_inj (rw same at k)))
    | inr differs ↦ elim (Bool-cases (ltb time b.bucket_time)) [
      | inl back ↦ ap (λ x. x.lookback) (sym (err_no_value s (rw (differs, back) at k)))
      | inr forth ↦
          ap (λ x. x.lookback) (sym (ok_inj (rw (differs, forth) at k)))
          ∙ finalize-lookback s.current_bucket s
    ]
  ]

  pub push-lookback :
      (c : OhlcCandleRow) (s r : RuntimeConsolidator) → push c s ≡ ok r → r.lookback ≡ s.lookback
  unfolding push
  push-lookback c s r k = push_at-lookback (floor_to_bucket s c.time) c s.current_bucket s r k
