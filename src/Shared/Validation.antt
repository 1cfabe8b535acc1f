-- ===== src/Shared/Validation.antt =====
-- What the validated periods, intervals and lookbacks are within.
use quantoxide.Prelude.{ap, arith, ok, split_map_err, sym, ℕ, ◌*◌, ◌↔◌, ◌∙◌, ◌≡◌, ◌≤◌}
use quantoxide.Prelude.Int.{pos, ℤ}
use quantoxide.Shared.{
  Lookback, OhlcResolution, Period, as_minutes, invalid_period, lookback_new, max_period,
  min_period, period_as_duration, period_try_from,
}

period_try_from-ok :
    (value : ℤ) (p : Period)
    → period_try_from value ≡ ok p
    → (value ≡ pos (p.as_u32)) × (min_period ≤ p.as_u32) × (p.as_u32 ≤ max_period)
unfolding period_try_from
period_try_from-ok value p h = ground arith

lookback_new-ok :
    (r : OhlcResolution) (value : ℤ) (l : Lookback)
    → lookback_new r value ≡ ok l
    → (value ≡ pos (l.period.as_u32))
      × (l.resolution ≡ r)
      × (1 ≤ l.period.as_u32)
      × (l.period.as_u32 * (as_minutes r * 60) ≤ 500 * 24 * 3600)
unfolding lookback_new period_as_duration as_minutes
lookback_new-ok r value l h =
    split_map_err invalid_period (period_try_from value) _ h
      λ p e k. ground (arith, period_try_from-ok value p e)

lookback_new_accepts :
    (r : OhlcResolution) (n : ℕ)
    → 1 ≤ n
    → n * (as_minutes r * 60) ≤ 500 * 24 * 3600
    → lookback_new r (pos n) ≡ ok record { resolution = r; period = record { as_u32 = n } }
unfolding lookback_new period_try_from period_as_duration as_minutes
lookback_new_accepts r n h k = ground arith

-- `Lookback::new` accepts a number of candles exactly where it is at least one and the candles, each
-- as long as its resolution, span at most 500 days; the lookback has the resolution and the number.
pub lookback_new-exact :
    (r : OhlcResolution) (value : ℤ) (l : Lookback)
    → (lookback_new r value ≡ ok l) ↔ (
        (value ≡ pos (l.period.as_u32))
        × (l.resolution ≡ r)
        × (1 ≤ l.period.as_u32)
        × (l.period.as_u32 * (as_minutes r * 60) ≤ 500 * 24 * 3600))
lookback_new-exact r value l = (
  lookback_new-ok r value l,
  λ h.
      ap (lookback_new r) h.0
      ∙ lookback_new_accepts r l.period.as_u32 h.2 h.3
      ∙ ap (λ q. ok record { resolution = q; period = l.period }) (sym h.1),
)
