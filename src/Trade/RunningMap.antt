-- ===== src/Trade/RunningMap.antt =====
-- `RunningTradesMap` of src/trade/core.rs, for the simulated running trades.
use quantoxide.Prelude.{Bool, List, Option, [], false, length, none, reverse, some, true, ℕ, ◌∷◌}
use quantoxide.Prelude.Maps.{Key, btree_get, btree_insert, btree_set, hash_get, hash_insert}
use quantoxide.Sdk.{Sdk}
use quantoxide.Time.{DateTime}
use quantoxide.Trade.Simulated.{SimulatedTradeRunning}
use quantoxide.Trade.Stoploss.{TradeTrailingStoploss}

module _ ⦃sdk : Sdk⦄ where
  -- A trade with its trailing stoploss.
  abbrev pub Entry : Type 0
  Entry = SimulatedTradeRunning × Option TradeTrailingStoploss

  pub record RunningTradesMap : Type 0 where
    pub trades : List (Key × Entry)
    pub id_to_time : List (ℕ × DateTime)

  abbrev pub empty_map : RunningTradesMap
  empty_map = record { trades = []; id_to_time = [] }

  abbrev pub key_of : SimulatedTradeRunning → Key
  key_of t = (t.entry_time, t.id)

  unfoldable pub add :
      RunningTradesMap → SimulatedTradeRunning → Option TradeTrailingStoploss → RunningTradesMap
  add m t tsl = record {
    trades = btree_insert (key_of t) (t, tsl) m.trades;
    id_to_time = hash_insert t.id t.entry_time m.id_to_time;
  }

  abbrev pub is_nil {ℓ} : {A : Type ℓ} → List A → Bool
  is_nil [] = true
  is_nil (_ ∷ _) = false

  unfoldable pub is_empty : RunningTradesMap → Bool
  is_empty m = is_nil m.trades

  unfoldable pub len : RunningTradesMap → ℕ
  len m = length m.id_to_time

  abbrev is_some {ℓ} : {A : Type ℓ} → Option A → Bool
  is_some none = false
  is_some (some _) = true

  pub contains : RunningTradesMap → ℕ → Bool
  contains m id = is_some (hash_get id m.id_to_time)

  abbrev get_at : List (Key × Entry) → ℕ → Option DateTime → Option Entry
  get_at trades id none = none
  get_at trades id (some creation_ts) = btree_get (creation_ts, id) trades

  pub get_by_id : RunningTradesMap → ℕ → Option Entry
  get_by_id m id = get_at m.trades id (hash_get id m.id_to_time)

  abbrev set_at : RunningTradesMap → ℕ → Entry → Option DateTime → RunningTradesMap
  set_at m id e none = m
  set_at m id e (some creation_ts) = record m { trades = btree_set (creation_ts, id) e m.trades }

  -- A write through `get_by_id_mut`.
  pub set_by_id : RunningTradesMap → ℕ → Entry → RunningTradesMap
  set_by_id m id e = set_at m id e (hash_get id m.id_to_time)

  -- `trades_desc`, with the keys: newest first.
  unfoldable pub trades_desc : RunningTradesMap → List (Key × Entry)
  trades_desc m = reverse m.trades
