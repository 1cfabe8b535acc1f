-- ===== src/Sync/CandlePage/Accepted.antt =====
-- Which pages of candles are accepted.
use quantoxide.Prelude.{
  All, Bool-cases, List, [], arith, err_absurd, false, inl, inr, leb, ok, refl, true, ◌%◌, ◌<◌, ◌↔◌,
  ◌∷◌, ◌≡◌,
}
use quantoxide.Sync.CandlePage.{CandleStore, check_candles, check_page, check_rounded, is_minute}
use quantoxide.Time.{minute}

module _ ⦃store : CandleStore⦄ where
  open store use {OhlcCandle, candle_time}

  abbrev pub AllAtMinutes : List OhlcCandle → Type 0
  AllAtMinutes cs = All (λ c. candle_time c % minute ≡ 0) cs

  -- Every candle is later than all that follow it.
  abbrev pub Descending : List OhlcCandle → Type 0
  Descending [] = Unit
  Descending (c ∷ cs) = All (λ d. candle_time d < candle_time c) cs × Descending cs

  later_than_rest :
      (c n : OhlcCandle) (cs : List OhlcCandle)
      → candle_time n < candle_time c
      → All (λ d. candle_time d < candle_time n) cs
      → All (λ d. candle_time d < candle_time c) cs
  later_than_rest c n [] lt h = tt
  later_than_rest c n (d ∷ ds) lt h = (omega (arith, lt, h.0), later_than_rest c n ds lt h.1)

  check_rounded-rounded : (c : OhlcCandle) → check_rounded c ≡ ok tt → candle_time c % minute ≡ 0
  unfolding check_rounded
  check_rounded-rounded c h = elim (Bool-cases (is_minute (candle_time c))) [
    | inl e ↦ ground arith
    | inr e ↦ err_absurd (rw e at h)
  ]

  check_candles-ordered :
      (c : OhlcCandle) (cs : List OhlcCandle)
      → check_candles c cs ≡ ok tt
      → AllAtMinutes (c ∷ cs) × Descending (c ∷ cs)
  unfolding check_candles
  check_candles-ordered c [] h = ((check_rounded-rounded c h, tt), (tt, tt))
  check_candles-ordered c (n ∷ cs) h = elim (Bool-cases (is_minute (candle_time c))) [
    | inr e ↦ err_absurd (rw e at h)
    | inl e ↦ elim (Bool-cases (leb (candle_time c) (candle_time n))) [
      | inl le ↦ err_absurd (rw (e, le) at h)
      | inr gt ↦
          let (rounded, ordered) = check_candles-ordered n cs (rw (e, gt) at h) in
          let lt : candle_time n < candle_time c = ground arith in
          ((ground arith, rounded), ((lt, later_than_rest c n cs lt ordered.0), ordered))
    ]
  ]

  check_candles_complete :
      (c : OhlcCandle) (cs : List OhlcCandle)
      → AllAtMinutes (c ∷ cs)
      → Descending (c ∷ cs)
      → check_candles c cs ≡ ok tt
  unfolding check_candles check_rounded
  check_candles_complete c [] r o =
      let e : is_minute (candle_time c) ≡ true = ground (arith, r.0) in rw e refl
  check_candles_complete c (n ∷ cs) r o =
      let e : is_minute (candle_time c) ≡ true = ground (arith, r.0) in
      let gt : leb (candle_time c) (candle_time n) ≡ false = ground (arith, o.0.0) in
      rw (e, gt) (check_candles_complete n cs r.1 o.1)

  -- A page of candles passes the checks exactly where all its times are whole minutes and each is
  -- later than all that follow it.
  pub check_page-exact :
      (page : List OhlcCandle) → (check_page page ≡ ok tt) ↔ (AllAtMinutes page × Descending page)
  unfolding check_page
  check_page-exact [] = ((λ h. (tt, tt)), (λ h. refl))
  check_page-exact (c ∷ cs) = (check_candles-ordered c cs, λ h. check_candles_complete c cs h.0 h.1)
