-- ===== src/Trade/Live/Session/Started.antt =====
-- What a new live session is like.
use quantoxide.Prelude.{
  Bool, Bool-cases, List, Option, Result, [], ap, err, err_absurd, false, inl, inr, length, none,
  ok, ok_inj, refl, some, split_bind, split_map_err, split_ok_or, subst, ℕ, ◌+◌, ◌<◌, ◌∙◌, ◌∷◌, ◌≡◌,
  ◌≤◌,
}
use quantoxide.Prelude.Int.{ℤ}
use quantoxide.Prelude.Maps.{hash_get}
use quantoxide.Sdk.{Sdk}
use quantoxide.Sdk.Laws.{PriceLaws}
use quantoxide.Time.{DateTime, hour}
use quantoxide.Trade.Error.{TradeCoreError}
use quantoxide.Trade.Live.{ExecutorActionError, LiveSdk, db_is_empty, live_history_update, rest_api}
use quantoxide.Trade.Live.CrossPosition.{LiveCrossPosition}
use quantoxide.Trade.Live.Session.{
  LiveTradingSession, SessionOutcome, add_closed_live, contains_live, note_trade,
  register_running_trade, register_with, session_expiry,
}
use quantoxide.Trade.Live.Session.Expiry.{session_expiry-bounds}
use quantoxide.Trade.Live.Session.Start.{
  Startup, all_booked, at_least_one, book_all_missed, book_missed, flatten, fresh_session, has_id,
  less_baseline, new_session, only_ok, reconcile, reconcile_missed, recover, recover_trades,
  snapshot_of, start_position,
}
use quantoxide.Trade.Live.Session.TriggerKept.{SessionCovers, register_running_trade-SessionCovers}
use quantoxide.Trade.Stoploss.{TradeTrailingStoploss}
use quantoxide.Trade.Trigger.{PriceTrigger}

module _ ⦃sdk : Sdk⦄ ⦃live : LiveSdk⦄ (laws : PriceLaws) where
  open sdk use {F64, PercentageCapped}
  open live use {Trade}

  -- The trigger covers the running trades, and the session expires as one that began at `now` does.
  abbrev pub IsFresh : DateTime → LiveTradingSession → Type 0
  IsFresh now s = SessionCovers s × (s.expires_at ≡ session_expiry now)

  only_ok-eq-ok : (r : SessionOutcome) (s : LiveTradingSession) → only_ok r ≡ ok s → r.0 ≡ s
  only_ok-eq-ok (s', ok u) s h = ok_inj h
  only_ok-eq-ok (s', err e) s h = err_absurd h

  register_with-expires :
      (s : LiveTradingSession) (t : Trade) (tsl : Option TradeTrailingStoploss)
      (r : Result PriceTrigger TradeCoreError)
      → (register_with s t tsl r).0.expires_at ≡ s.expires_at
  unfolding register_with
  register_with-expires s t tsl (ok g) = refl
  register_with-expires s t tsl (err e) = refl

  register_running_trade-expires :
      (s : LiveTradingSession) (t : Trade) (tsl : Option TradeTrailingStoploss) (b : Bool)
      → (register_running_trade s t tsl b).0.expires_at ≡ s.expires_at
  unfolding register_running_trade note_trade
  register_running_trade-expires s t tsl b = elim (Bool-cases (live.trade_running t)) [
    | inr e ↦ rw e refl
    | inl e ↦ elim (Bool-cases (contains_live s.running_map (live.trade_id t))) [
      | inl f ↦ rw (e, f) refl
      | inr f ↦ rw (e, f) (register_with-expires (note_trade s t b) t tsl _)
    ]
  ]

  -- The session of a pair that is given back.
  first_of :
      {A : Type 0} {s s' : LiveTradingSession} {x y : A}
      → ◌≡◌ {A = Result (LiveTradingSession × A) ExecutorActionError} (ok (s, x)) (ok (s', y))
      → s ≡ s'
  first_of h = ap (λ r. r.0) (ok_inj h)

  recover_trades-IsFresh :
      (now : DateTime) (snapshot : List (ℕ × ℤ)) (s : LiveTradingSession)
      (registered : List (ℕ × Option TradeTrailingStoploss)) (ts : List Trade)
      (s' : LiveTradingSession) (left : List (ℕ × Option TradeTrailingStoploss))
      → recover_trades snapshot s registered ts ≡ ok (s', left)
      → IsFresh now s
      → IsFresh now s'
  unfolding recover_trades less_baseline
  recover_trades-IsFresh now snapshot s registered [] s' left h c =
      subst (IsFresh now) (first_of h) c
  recover_trades-IsFresh now snapshot s registered (t ∷ ts) s' left h c =
      let tsl = flatten (hash_get (live.trade_id t) registered) in
      let start = less_baseline snapshot s t in
      split_bind (only_ok (register_running_trade start t tsl false)) _ h λ u h1 k1.
        let same = only_ok-eq-ok (register_running_trade start t tsl false) u h1 in
        recover_trades-IsFresh now snapshot u _ ts s' left k1 (
          subst (IsFresh now) same (
            register_running_trade-SessionCovers laws start t tsl false c.0,
            register_running_trade-expires start t tsl false ∙ c.1,
          ))

  book_missed-IsFresh :
      (now : DateTime) (snapshot : List (ℕ × ℤ)) (s s' : LiveTradingSession) (t : Trade)
      → book_missed snapshot s t ≡ ok s'
      → IsFresh now s
      → IsFresh now s'
  unfolding book_missed
  book_missed-IsFresh now snapshot s s' t h c =
      split_map_err live_history_update (add_closed_live s.closed_history t) _ h
        λ x h1 k1. subst (IsFresh now) (ok_inj k1) c

  book_all_missed-IsFresh :
      (now : DateTime) (snapshot : List (ℕ × ℤ)) (missed : List ℕ) (s : LiveTradingSession)
      (unconfirmed : List ℕ) (ts : List Trade) (r : LiveTradingSession × List ℕ)
      → book_all_missed snapshot missed s unconfirmed ts ≡ ok r
      → IsFresh now s
      → IsFresh now r.0
  unfolding book_all_missed
  book_all_missed-IsFresh now snapshot missed s unconfirmed [] r h c =
      subst (λ (x : LiveTradingSession × List ℕ). IsFresh now x.0) (ok_inj h) c
  book_all_missed-IsFresh now snapshot missed s unconfirmed (t ∷ ts) r h c =
      elim (Bool-cases (has_id (live.trade_id t) missed)) [
        | inr e ↦ book_all_missed-IsFresh now snapshot missed s unconfirmed ts r (rw e at h) c
        | inl e ↦ split_bind (book_missed snapshot s t) _ (rw e at h) λ u h1 k1.
            book_all_missed-IsFresh now snapshot missed u _ ts r k1
              (book_missed-IsFresh now snapshot s u t h1 c)
      ]

  all_booked-eq-ok :
      (r : LiveTradingSession × List ℕ) (s : LiveTradingSession) → all_booked r ≡ ok s → r.0 ≡ s
  unfolding all_booked
  all_booked-eq-ok (s', []) s h = ok_inj h
  all_booked-eq-ok (s', id ∷ ids) s h = err_absurd h

  reconcile_missed-IsFresh :
      (now : DateTime) (startup : Startup) (prev s s' : LiveTradingSession) (ids : List ℕ)
      → reconcile_missed startup prev s ids ≡ ok s'
      → IsFresh now s
      → IsFresh now s'
  unfolding reconcile_missed
  reconcile_missed-IsFresh now startup prev s s' [] h c = subst (IsFresh now) (ok_inj h) c
  reconcile_missed-IsFresh now startup prev s s' (id ∷ ids) h c =
      split_map_err rest_api
        (startup.closed_trades (at_least_one (length prev.running_map.id_to_time))) _ h
        λ ts h1 k1.
          split_bind (book_all_missed prev.funding_snapshot (id ∷ ids) s (id ∷ ids) ts) _ k1
            λ r h2 k2.
              subst (IsFresh now) (all_booked-eq-ok r s' k2) (
                book_all_missed-IsFresh now prev.funding_snapshot (id ∷ ids) s (id ∷ ids) ts r h2 c)

  reconcile-IsFresh :
      (now : DateTime) (startup : Startup) (prev : Option LiveTradingSession)
      (s s' : LiveTradingSession) (ts : List Trade)
      → reconcile startup prev s ts ≡ ok s'
      → IsFresh now s
      → IsFresh now s'
  unfolding reconcile
  reconcile-IsFresh now startup none s s' ts h c = subst (IsFresh now) (ok_inj h) c
  reconcile-IsFresh now startup (some prev) s s' ts h c =
      reconcile_missed-IsFresh now startup prev s s' _ h c

  fresh_session-IsFresh :
      (step : PercentageCapped) (now : DateTime) (entry : DateTime × sdk.float.F64) (balance : ℕ)
      (p : LiveCrossPosition) (prev : Option LiveTradingSession)
      → IsFresh now (fresh_session step now entry balance p prev)
  unfolding fresh_session
  fresh_session-IsFresh step now entry balance p none = (tt, refl)
  fresh_session-IsFresh step now entry balance p (some prev) = (tt, refl)

  new_session-IsFresh :
      (recovers : Bool) (step : PercentageCapped) (startup : Startup)
      (prev : Option LiveTradingSession) (s : LiveTradingSession)
      (dangling : List (ℕ × Option TradeTrailingStoploss))
      → new_session recovers step startup prev ≡ ok (s, dangling)
      → IsFresh startup.now s
  unfolding new_session recover
  new_session-IsFresh recovers step startup prev s dangling h =
      split_ok_or startup.latest_entry db_is_empty _ h λ entry h1 k1.
        split_map_err rest_api startup.user_balance _ k1 λ balance h2 k2.
          split_map_err rest_api startup.cross_position _ k2 λ raw h3 k3.
            split_bind (start_position prev raw) _ k3 λ p h4 k4.
              let begun = fresh_session step startup.now entry balance p prev in
              let fresh = fresh_session-IsFresh step startup.now entry balance p prev in
              elim (Bool-cases recovers) [
                | inr e ↦ subst (IsFresh startup.now) (first_of (rw e at k4)) fresh
                | inl e ↦ split_map_err rest_api startup.running_trades _ (rw e at k4) λ ts h5 k5.
                    split_bind (reconcile startup prev begun ts) _ k5 λ u h6 k6.
                      recover_trades-IsFresh startup.now (snapshot_of prev) u startup.registered ts
                        s dangling k6
                        (reconcile-IsFresh startup.now startup prev begun u ts h6 fresh)
              ]

  -- If `Price` is totally ordered in agreement with `f64`: a session that could be started, with
  -- whatever trades it takes over, has a trigger that covers every running trade, and it expires
  -- later than it began, within an hour.
  pub new_session-expires :
      (recovers : Bool) (step : PercentageCapped) (startup : Startup)
      (prev : Option LiveTradingSession) (s : LiveTradingSession)
      (dangling : List (ℕ × Option TradeTrailingStoploss))
      → new_session recovers step startup prev ≡ ok (s, dangling)
      → SessionCovers s × (startup.now < s.expires_at) × (s.expires_at ≤ startup.now + hour)
  new_session-expires recovers step startup prev s dangling h =
      let fresh = new_session-IsFresh recovers step startup prev s dangling h in
      let bounds = session_expiry-bounds startup.now in
      (fresh.0, rw fresh.1 bounds.0, rw fresh.1 bounds.1)
