-- ===== src/Trade/TradingState/Sums.antt =====
-- What the statistics of the running trades add up.
use quantoxide.Prelude.{List, [], ap, arith, if◌then◌else◌, refl, ℕ, ◌%◌, ◌+◌, ◌<◌, ◌∷◌, ◌≡◌}
use quantoxide.Prelude.Machine.{u64_add, u64_mod}
use quantoxide.Prelude.Maps.{Key}
use quantoxide.Sdk.{Sdk, TradeSide, buy, sell}
use quantoxide.Trade.Cross.{side_eq}
use quantoxide.Trade.RunningMap.{Entry, trades_desc}
use quantoxide.Trade.Simulated.{SimulatedTradeRunning}
use quantoxide.Trade.TradingState.{
  RunningStats, TradingState, count_side, count_trade, count_trades, get_running_stats,
  locked_margin, no_stats,
}

module _ ⦃sdk : Sdk⦄ where
  open sdk use {Price, quantity_as_u64}

  -- The sum of a value over the trades of a side, and over all trades.
  abbrev pub on_side : TradeSide → TradeSide → ℕ → ℕ
  on_side side other n = if side_eq side other then n else 0

  abbrev pub total_on : TradeSide → (SimulatedTradeRunning → ℕ) → List (Key × Entry) → ℕ
  total_on side value [] = 0
  total_on side value (e ∷ es) = on_side side e.1.0.side (value e.1.0) + total_on side value es

  abbrev pub total : (SimulatedTradeRunning → ℕ) → List (Key × Entry) → ℕ
  total value [] = 0
  total value (e ∷ es) = value e.1.0 + total value es

  -- The counters of the statistics are u64.
  abbrev InRange : RunningStats → Type 0
  InRange s =
      (s.long_margin < u64_mod)
      × (s.short_margin < u64_mod)
      × (s.long_quantity < u64_mod)
      × (s.short_quantity < u64_mod)
      × (s.fees < u64_mod)

  -- Each total is the sum of what its trades have, modulo 2 ^ 64.
  abbrev pub AddsUp : RunningStats → List (Key × Entry) → RunningStats → Type 0
  AddsUp s es s' =
      (s'.long_margin ≡ (s.long_margin + total_on buy locked_margin es) % u64_mod)
      × (s'.short_margin ≡ (s.short_margin + total_on sell locked_margin es) % u64_mod)
      × (s'.long_quantity
          ≡ (s.long_quantity + total_on buy (λ t. quantity_as_u64 t.quantity) es) % u64_mod)
      × (s'.short_quantity
          ≡ (s.short_quantity + total_on sell (λ t. quantity_as_u64 t.quantity) es) % u64_mod)
      × (s'.fees ≡ (s.fees + total (λ t. t.opening_fee) es) % u64_mod)

  -- Counting a trade on a side keeps the counters in their range, and each counter that is not of
  -- that side as it was.
  count_side-InRange :
      (side : TradeSide) (s : RunningStats) (t : SimulatedTradeRunning)
      → InRange s
      → InRange (count_side side s t)
  unfolding count_side
  count_side-InRange buy s t (a, b, c, d, e) = (omega arith, b, omega arith, d, e)
  count_side-InRange sell s t (a, b, c, d, e) = (a, omega arith, c, omega arith, e)

  count_side-adds :
      (side : TradeSide) (s : RunningStats) (t : SimulatedTradeRunning)
      → InRange s
      → ((count_side side s t).long_margin
          ≡ (s.long_margin + on_side buy side (locked_margin t)) % u64_mod)
        × ((count_side side s t).short_margin
            ≡ (s.short_margin + on_side sell side (locked_margin t)) % u64_mod)
        × ((count_side side s t).long_quantity
            ≡ (s.long_quantity + on_side buy side (quantity_as_u64 t.quantity)) % u64_mod)
        × ((count_side side s t).short_quantity
            ≡ (s.short_quantity + on_side sell side (quantity_as_u64 t.quantity)) % u64_mod)
        × ((count_side side s t).fees ≡ s.fees)
  unfolding count_side
  count_side-adds buy s t (a, b, c, d, e) = (refl, omega arith, refl, omega arith, refl)
  count_side-adds sell s t (a, b, c, d, e) = (omega arith, refl, omega arith, refl, refl)

  add_on :
      (s n m : ℕ) {a c : ℕ}
      → c ≡ (s + n) % u64_mod
      → a ≡ (c + m) % u64_mod
      → a ≡ (s + (n + m)) % u64_mod
  add_on s n m h g = omega (arith, h, g)

  count_trades-AddsUp :
      (price : Price) (s : RunningStats) (es : List (Key × Entry))
      → InRange s
      → AddsUp s es (count_trades price s es)
  unfolding count_trades count_trade
  count_trades-AddsUp price s [] (a, b, c, d, e) =
      (omega (arith, a), omega (arith, b), omega (arith, c), omega (arith, d), omega (arith, e))
  count_trades-AddsUp price s ((k, (t, tsl)) ∷ es) r =
      let (p, q, u, v, w) = count_side-InRange t.side s t r in
      let (a, b, c, d, e) = count_side-adds t.side s t r in
      let (a', b', c', d', e') =
        count_trades-AddsUp price (count_trade price s t) es (p, q, u, v, omega arith) in
      (
        add_on _ _ _ a a',
        add_on _ _ _ b b',
        add_on _ _ _ c c',
        add_on _ _ _ d d',
        add_on _ _ _ (ap (λ f. u64_add f t.opening_fee) e) e',
      )

  -- The statistics of a trading state hold, for each side, the sum of the margins with their reserves
  -- and of the quantities of its trades, and over all trades the sum of the opening fees, all modulo
  -- 2 ^ 64.
  pub get_running_stats-AddsUp :
      (s : TradingState) → AddsUp no_stats (trades_desc s.running_map) (get_running_stats s)
  unfolding get_running_stats
  get_running_stats-AddsUp s =
      count_trades-AddsUp s.market_price no_stats (trades_desc s.running_map)
        (omega arith, omega arith, omega arith, omega arith, omega arith)
