-- ===== src/Db.antt =====
-- src/db/models.rs: the rows that the trading code reads.
use quantoxide.Prelude.{Bool, ℕ}
use quantoxide.Prelude.Int.{ℤ}
use quantoxide.Sdk.{Sdk}
use quantoxide.Time.{DateTime}

module _ ⦃sdk : Sdk⦄ where
  open sdk use {F64}

  pub record OhlcCandleRow : Type 0 where
    pub time : DateTime
    pub open_price : F64
    pub high : F64
    pub low : F64
    pub close : F64
    pub volume : ℤ
    pub created_at : DateTime
    pub updated_at : DateTime
    pub stable : Bool

  pub record FundingSettlementRow : Type 0 where
    pub id : ℕ
    pub time : DateTime
    pub fixing_price : F64
    pub funding_rate : F64
    pub created_at : DateTime
