-- ===== src/Trade/OrderRequest/Validation.antt =====
-- Which order requests are refused.
use quantoxide.Prelude.{
  Bool-cases, Option, Option-cases, Result, err, err_absurd, false, inl, inr, none, ok, ok_inj,
  refl, some, split_bind, subst, true, ◌>>=◌, ◌≡◌, ◌⊎◌,
}
use quantoxide.Sdk.{Sdk, TradeSide, buy, sell}
use quantoxide.Trade.OrderRequest.{
  IsolatedOrderRequest, IsolatedOrderValidationError, invalid_risk_bounds, isolated_market,
  isolated_request, isolated_with_client_id, risk_is_ordered, validate_fixed_risk_ordering,
  with_stoploss, with_takeprofit,
}
use quantoxide.Trade.Stoploss.{Stoploss, fixed, trailing}
use quantoxide.Trade.Trigger.{price_lt}

module _ ⦃sdk : Sdk⦄ where
  open sdk use {Price, price_le, percentage, Leverage, TradeSize, ClientId}

  -- A request that the constructor and the setters can give.
  pub data Built : IsolatedOrderRequest → Type 0 where
    market : (s : TradeSide) (z : TradeSize) (l : Leverage) → Built (isolated_market s z l)
    stoploss_set :
        (r r' : IsolatedOrderRequest) (sl : Stoploss)
        → Built r
        → with_stoploss r sl ≡ ok r'
        → Built r'
    takeprofit_set :
        (r r' : IsolatedOrderRequest) (tp : Price)
        → Built r
        → with_takeprofit r tp ≡ ok r'
        → Built r'
    client_id_set :
        (r : IsolatedOrderRequest) (id : ClientId) → Built r → Built (isolated_with_client_id r id)

  -- A fixed stoploss is on the losing side of the takeprofit.
  abbrev pub RisksAreOrdered : TradeSide → Option Stoploss → Option Price → Type 0
  RisksAreOrdered side (some (fixed stoploss)) (some takeprofit) =
      risk_is_ordered side stoploss takeprofit ≡ true
  RisksAreOrdered side (some (trailing percentage)) takeprofit = Unit
  RisksAreOrdered side (some (fixed stoploss)) none = Unit
  RisksAreOrdered side none takeprofit = Unit

  abbrev pub IsOrderedRequest : IsolatedOrderRequest → Type 0
  IsOrderedRequest r = RisksAreOrdered r.side r.stoploss r.takeprofit

  validated-RisksAreOrdered :
      (side : TradeSide) (sl : Option Stoploss) (tp : Option Price)
      → validate_fixed_risk_ordering side sl tp ≡ ok tt
      → RisksAreOrdered side sl tp
  unfolding validate_fixed_risk_ordering
  validated-RisksAreOrdered side (some (fixed p)) (some q) h =
      elim (Bool-cases (risk_is_ordered side p q)) [ inl e ↦ e | inr e ↦ err_absurd (rw e at h) ]
  validated-RisksAreOrdered side (some (trailing x)) tp h = tt
  validated-RisksAreOrdered side (some (fixed p)) none h = tt
  validated-RisksAreOrdered side none tp h = tt

  with_stoploss-IsOrderedRequest :
      (r r' : IsolatedOrderRequest) (sl : Stoploss)
      → with_stoploss r sl ≡ ok r'
      → IsOrderedRequest r'
  unfolding with_stoploss
  with_stoploss-IsOrderedRequest r r' sl h =
      split_bind (validate_fixed_risk_ordering r.side (some sl) r.takeprofit) _ h λ u h1 k1.
        subst IsOrderedRequest (ok_inj k1)
          (validated-RisksAreOrdered r.side (some sl) r.takeprofit h1)

  with_takeprofit-IsOrderedRequest :
      (r r' : IsolatedOrderRequest) (tp : Price)
      → with_takeprofit r tp ≡ ok r'
      → IsOrderedRequest r'
  unfolding with_takeprofit
  with_takeprofit-IsOrderedRequest r r' tp h =
      split_bind (validate_fixed_risk_ordering r.side r.stoploss (some tp)) _ h λ u h1 k1.
        subst IsOrderedRequest (ok_inj k1)
          (validated-RisksAreOrdered r.side r.stoploss (some tp) h1)

  Built-ordered : {r : IsolatedOrderRequest} → Built r → IsOrderedRequest r
  unfolding isolated_market isolated_with_client_id
  Built-ordered (market s z l) = tt
  Built-ordered (stoploss_set q r sl b h) = with_stoploss-IsOrderedRequest q r sl h
  Built-ordered (takeprofit_set q r tp b h) = with_takeprofit-IsOrderedRequest q r tp h
  Built-ordered (client_id_set q id b) = Built-ordered b

  -- Whatever the setters are called with and in whatever order: a request that they give has its
  -- fixed stoploss, if it has one, on the losing side of its takeprofit.
  pub Built-IsOrderedRequest : (r : IsolatedOrderRequest) → Built r → IsOrderedRequest r
  Built-IsOrderedRequest r b = Built-ordered b

  -- The request is what the validation lets through.
  isolated_request-runs :
      (side : TradeSide) (size : TradeSize) (leverage : Leverage) (sl : Option Stoploss)
      (tp : Option Price) (id : Option ClientId)
      → isolated_request side size leverage sl tp id ≡ (
          validate_fixed_risk_ordering side sl tp >>= λ u. ok record {
            side = side;
            size = size;
            leverage = leverage;
            stoploss = sl;
            takeprofit = tp;
            client_id = id;
          })
  unfolding isolated_request isolated_market with_stoploss with_takeprofit isolated_with_client_id
      validate_fixed_risk_ordering
  isolated_request-runs side size leverage none none none = refl
  isolated_request-runs side size leverage none none (some id) = refl
  isolated_request-runs side size leverage none (some tp) none = refl
  isolated_request-runs side size leverage none (some tp) (some id) = refl
  isolated_request-runs side size leverage (some (trailing x)) none none = refl
  isolated_request-runs side size leverage (some (trailing x)) none (some id) = refl
  isolated_request-runs side size leverage (some (trailing x)) (some tp) none = refl
  isolated_request-runs side size leverage (some (trailing x)) (some tp) (some id) = refl
  isolated_request-runs side size leverage (some (fixed p)) none none = refl
  isolated_request-runs side size leverage (some (fixed p)) none (some id) = refl
  isolated_request-runs side size leverage (some (fixed p)) (some tp) id =
      elim (Bool-cases (risk_is_ordered side p tp)) [
        | inl e ↦ elim (Option-cases id) [ inl f ↦ rw (e, f) refl | inr f ↦ rw (e, f.1) refl ]
        | inr e ↦ rw e refl
      ]

  -- A fixed stoploss is below the takeprofit of a long and above the takeprofit of a short.
  abbrev pub LosesBelowProfit : TradeSide → Option Stoploss → Option Price → Type 0
  LosesBelowProfit buy (some (fixed sl)) (some tp) = price_le tp sl ≡ false
  LosesBelowProfit sell (some (fixed sl)) (some tp) = price_le sl tp ≡ false
  LosesBelowProfit side (some (trailing percentage)) tp = Unit
  LosesBelowProfit side (some (fixed sl)) none = Unit
  LosesBelowProfit side none tp = Unit

  -- The prices are the other way round, or the same.
  abbrev pub LosesAboveProfit : TradeSide → Price → Price → Type 0
  LosesAboveProfit buy sl tp = price_le tp sl ≡ true
  LosesAboveProfit sell sl tp = price_le sl tp ≡ true

  -- An error that names the two prices of a request, which are the wrong way round.
  abbrev pub IsRefused {ℓ} :
      {A : Type ℓ}
      → TradeSide
      → Option Stoploss
      → Option Price
      → Result A IsolatedOrderValidationError
      → Type ℓ
  IsRefused side stoploss takeprofit result =
      (sl : Price) × (tp : Price) × (stoploss ≡ some (fixed sl))
      × (takeprofit ≡ some tp)
      × LosesAboveProfit side sl tp
      × (result ≡ err (invalid_risk_bounds side sl tp))

  validate_fixed_risk_ordering-ends :
      (side : TradeSide) (sl : Option Stoploss) (tp : Option Price)
      → IsRefused side sl tp (validate_fixed_risk_ordering side sl tp)
        ⊎ (LosesBelowProfit side sl tp × (validate_fixed_risk_ordering side sl tp ≡ ok tt))
  unfolding validate_fixed_risk_ordering risk_is_ordered price_lt
  validate_fixed_risk_ordering-ends buy (some (fixed p)) (some q) =
      elim (Bool-cases (price_le q p)) [
        | inl e ↦ inl (p, q, refl, refl, e, rw e refl)
        | inr e ↦ inr (e, rw e refl)
      ]
  validate_fixed_risk_ordering-ends sell (some (fixed p)) (some q) =
      elim (Bool-cases (price_le p q)) [
        | inl e ↦ inl (p, q, refl, refl, e, rw e refl)
        | inr e ↦ inr (e, rw e refl)
      ]
  validate_fixed_risk_ordering-ends side (some (trailing x)) tp = inr (tt, refl)
  validate_fixed_risk_ordering-ends side (some (fixed p)) none = inr (tt, refl)
  validate_fixed_risk_ordering-ends side none tp = inr (tt, refl)

  -- A market order with a fixed stoploss and a takeprofit is refused, with these two prices in the
  -- error, where the stoploss is not below the takeprofit of a long or not above that of a short; where
  -- it is, and where a price is missing or the stoploss trails, the request has all that was given.
  pub isolated_request-validates :
      (side : TradeSide) (size : TradeSize) (leverage : Leverage) (sl : Option Stoploss)
      (tp : Option Price) (id : Option ClientId)
      → IsRefused side sl tp (isolated_request side size leverage sl tp id)
        ⊎ (LosesBelowProfit side sl tp
            × (isolated_request side size leverage sl tp id
                ≡ ok record {
                  side = side;
                  size = size;
                  leverage = leverage;
                  stoploss = sl;
                  takeprofit = tp;
                  client_id = id;
                }))
  isolated_request-validates side size leverage sl tp id =
      let runs = isolated_request-runs side size leverage sl tp id in
      elim (validate_fixed_risk_ordering-ends side sl tp) [
        | inl (p, q, hp, hq, above, e) ↦ inl (p, q, hp, hq, above, rw e at runs)
        | inr (below, e) ↦ inr (below, rw e at runs)
      ]
