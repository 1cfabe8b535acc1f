-- ===== src/Sdk/Laws.antt =====
-- What the program relies on in the documented behaviour of `lnm-sdk`, as hypotheses.
use quantoxide.Prelude.{none, ok, some, true, ℕ, ◌+◌, ◌<◌, ◌≡◌, ◌⊎◌}
use quantoxide.Prelude.Int.{pos}
use quantoxide.Prelude.Machine.{i64_half}
use quantoxide.Sdk.{CrossExposure, Sdk, TradeSide, neutral, running}

module _ ⦃sdk : Sdk⦄ where
  open sdk use {
    F64, f64_le, Price, price_le, price_as_f64, CrossQuantity, cross_as_u64, cross_as_i64,
    cross_try_add, cross_try_sub, CrossLeverage, CrossExposureRunning, exposure_side,
    exposure_quantity, exposure_entry_price, cross_exposure_new, as_running_params,
  }

  -- `Price` is totally ordered, and a comparison with an `f64` respects that order.
  pub record PriceLaws : Type 0 where
    pub price_total : (a b : Price) → (price_le a b ≡ true) ⊎ (price_le b a ≡ true)
    pub price_trans :
        (a b c : Price) → price_le a b ≡ true → price_le b c ≡ true → price_le a c ≡ true
    pub f64_le_price :
        (x : F64) (a b : Price)
        → price_le a b ≡ true
        → f64_le x (price_as_f64 a) ≡ true
        → f64_le x (price_as_f64 b) ≡ true
    pub price_le_f64 :
        (x : F64) (a b : Price)
        → price_le a b ≡ true
        → f64_le (price_as_f64 b) x ≡ true
        → f64_le (price_as_f64 a) x ≡ true

  -- A cross exposure is the one that was asked for.
  pub record ExposureLaws : Type 0 where
    pub new_neutral : (m : ℕ) (l : CrossLeverage) → cross_exposure_new m l none ≡ ok neutral
    pub new_running :
        (m : ℕ) (l : CrossLeverage) (s : TradeSide) (q : CrossQuantity) (p : Price)
        (e : CrossExposure CrossExposureRunning)
        → cross_exposure_new m l (some (s, q, p)) ≡ ok e
        → (r : CrossExposureRunning) × (e ≡ running r)
          × (exposure_side r ≡ s)
          × (exposure_quantity r ≡ q)
          × (exposure_entry_price r ≡ p)
    pub params_neutral : as_running_params neutral ≡ none
    pub params_running :
        (r : CrossExposureRunning)
        → as_running_params (running r)
          ≡ some (exposure_side r, exposure_quantity r, exposure_entry_price r)

  -- Cross quantities are numbers; sums and differences that are returned are exact.
  pub record QuantityLaws : Type 0 where
    pub as_i64_exact : (q : CrossQuantity) → cross_as_i64 q ≡ pos (cross_as_u64 q)
    pub as_u64_bound : (q : CrossQuantity) → cross_as_u64 q < i64_half
    pub as_u64_injective : (a b : CrossQuantity) → cross_as_u64 a ≡ cross_as_u64 b → a ≡ b
    pub try_add_exact :
        (a b c : CrossQuantity)
        → cross_try_add a b ≡ ok c
        → cross_as_u64 c ≡ cross_as_u64 a + cross_as_u64 b
    pub try_sub_exact :
        (a b c : CrossQuantity)
        → cross_try_sub a b ≡ ok c
        → cross_as_u64 c + cross_as_u64 b ≡ cross_as_u64 a

  -- A quantity that is larger by at least one has a difference.
  pub record DifferenceLaw : Type 0 where
    pub try_sub_defined :
        (a b : CrossQuantity)
        → cross_as_u64 b < cross_as_u64 a
        → (c : CrossQuantity) × (cross_try_sub a b ≡ ok c)
