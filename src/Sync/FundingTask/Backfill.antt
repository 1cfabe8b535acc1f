-- ===== src/Sync/FundingTask/Backfill.antt =====
-- What a backfill ensures: of the settlements it stores, and of its end.
use quantoxide.Dates.Funding.{floor_funding_settlement_time, is_valid_funding_settlement_time}
use quantoxide.Prelude.{
  Bool, Bool-cases, List, Option, Result, [], ap, arith, err, err_absurd, false, inl, inr, leb, map,
  none, ok, refl, some, sym, true, ◌==◌, ◌||◌, ◌∙◌, ◌∷◌, ◌≡◌, ◌≤◌, ◌⊎◌,
}
use quantoxide.Sync.FundingSettlements.{
  FundingDownloadRange, FundingSettlementsState, funding_range_to, funding_state_new, has_missing,
  next_settlements_range,
}
use quantoxide.Sync.FundingSettlements.Reach.{funding_state_new-bounds, has_missing-false}
use quantoxide.Sync.FundingTask.{
  Failure, Progress, SettlementStore, TaskConfig, Turn, TurnEnd, World, advance, backfill,
  backfill_loop, backfill_turn, check_available, check_settlements, contains_time, continued,
  ends_at_least, evaluate_and_send, evaluate_with_reach, fatal, finish_turn, get_new_settlements,
  handle_state_update, insert_settlements, is_none_time, is_synced, partial_download, persists,
  returned,
}
use quantoxide.Sync.FundingTask.GivenUp.{GivenUp, GivenUp-append, SentLast, persisting-GivenUp}
use quantoxide.Sync.Step.{Ends, map_err-Ends, of_result-Ends, then_step-Ends}
use quantoxide.Time.{DateTime}

-- What the program relies on in the table of settlements: inserting a page stores nothing else.
pub record StoreLaws (store : SettlementStore) : Type 1 where
  pub is_stored : SettlementStore.Db store → DateTime → Type 0
  pub inserted :
      (page : List (SettlementStore.FundingSettlement store)) (db : SettlementStore.Db store)
      (t : DateTime)
      → is_stored (SettlementStore.add_settlements store page db) t
      → is_stored db t ⊎ (contains_time t (map (SettlementStore.settlement_time store) page) ≡ true)

module _ ⦃store : SettlementStore⦄ (laws : StoreLaws store) (config : TaskConfig) where
  open store use {
    Db, FundingSettlement, add_settlements, get_missing_settlement_times, settlement_time,
    stored_bounds,
  }

  -- Only settlement times are stored.
  abbrev pub OnlyValid : World → Type 0
  OnlyValid w = (t : DateTime) → laws.is_stored w.db t → is_valid_funding_settlement_time t ≡ true

  check_settlements-IsValid :
      (page : List FundingSettlement) (t : DateTime)
      → check_settlements page ≡ ok tt
      → contains_time t (map settlement_time page) ≡ true
      → is_valid_funding_settlement_time t ≡ true
  unfolding check_settlements contains_time
  check_settlements-IsValid [] t h k = cc
  check_settlements-IsValid (s ∷ ss) t h k =
      elim (Bool-cases (is_valid_funding_settlement_time (settlement_time s))) [
        | inr e ↦ err_absurd (rw e at h)
        | inl e ↦ elim (Bool-cases (t == settlement_time s)) [
          | inl same ↦ let u : t ≡ settlement_time s = ground arith in rw u e
          | inr other ↦ check_settlements-IsValid ss t (rw e at h) (rw other at k)
        ]
      ]

  abbrev pub ScanOf : World → DateTime → Option DateTime → FundingSettlementsState → Type 0
  ScanOf w now exclude s =
      funding_state_new (get_missing_settlement_times w.db) now (stored_bounds w.db)
        (some config.funding_settlement_reach) config.flag_missing_range exclude
      ≡ ok s

  -- The end of a backfill in a turn of its loop. The state it sent last is a scan of what is stored, at
  -- the time of this turn and over the range that is to be checked, which stops early, if at all, before
  -- a time that a state it sent reports as missing; this scan found nothing missing; the stored history
  -- begins at the reach time or before; and the result tells whether it goes on to the last settlement
  -- time when the turn ends.
  pub record IsBackfilled (turn : Turn) (w : World) (synced : Bool) : Type 0 where
    pub state : FundingSettlementsState
    pub start : DateTime
    pub end : DateTime
    pub now : DateTime
    pub exclude : Option DateTime
    pub at_turn : (now ≡ turn.scanned_at) ⊎ (now ≡ turn.rescanned_at)
    pub evaluated : ScanOf w now exclude state
    pub given_up : GivenUp w.sent exclude
    pub sent_last : SentLast w.sent state
    pub stored : stored_bounds w.db ≡ some (start, end)
    pub complete : state.missing_times ≡ []
    pub reached : start ≤ config.funding_settlement_reach
    pub up_to_date : synced ≡ leb (floor_funding_settlement_time turn.ended_at) end

  abbrev AfterScan :
      DateTime → Option DateTime → Option DateTime → World → FundingSettlementsState → Type 0
  AfterScan now exclude kept w s = ScanOf w now exclude s × SentLast w.sent s × GivenUp w.sent kept

  evaluate_and_send-AfterScan :
      (now : DateTime) (listens : Bool) (exclude kept : Option DateTime) (w : World)
      → OnlyValid w
      → GivenUp w.sent kept
      → Ends OnlyValid (AfterScan now exclude kept) (evaluate_and_send config now listens exclude w)
  unfolding evaluate_and_send evaluate_with_reach handle_state_update
  evaluate_and_send-AfterScan now listens exclude kept w h g =
      let scan =
        λ (v : World) (s : FundingSettlementsState). ScanOf v now exclude s × GivenUp v.sent kept in
      then_step-Ends OnlyValid scan (AfterScan now exclude kept) _ _
        (map_err-Ends OnlyValid scan fatal _ w h (λ s e. (e, g)))
        (λ v s i q. elim (Bool-cases listens) [
          | inl e ↦ rw e (i, (q.0, (v.sent, refl), GivenUp-append v.sent (s ∷ []) kept q.1))
          | inr e ↦ rw e i
        ])

  partial_download-OnlyValid :
      (turn : Turn) (range : FundingDownloadRange) (kept : Option DateTime) (w : World)
      → OnlyValid w
      → GivenUp w.sent kept
      → Ends OnlyValid (λ v a. GivenUp v.sent kept) (partial_download config turn range w)
  unfolding partial_download insert_settlements
  partial_download-OnlyValid turn range kept w h g =
      then_step-Ends OnlyValid (λ v page. GivenUp v.sent kept) (λ v a. GivenUp v.sent kept) _ _
        (of_result-Ends OnlyValid (λ v page. GivenUp v.sent kept)
          (get_new_settlements config turn range) w h (λ page e. g))
        (λ v page i q.
          then_step-Ends OnlyValid (λ v a. (check_settlements page ≡ ok tt) × GivenUp v.sent kept)
            (λ v a. GivenUp v.sent kept) _ _
            (of_result-Ends OnlyValid
              (λ v a. (check_settlements page ≡ ok tt) × GivenUp v.sent kept)
              (check_settlements page) v i (λ a e. (e, q)))
            (λ u a i' checked.
              then_step-Ends OnlyValid (λ v a. GivenUp v.sent kept) (λ v a. GivenUp v.sent kept) _ _
                (of_result-Ends OnlyValid (λ v a. GivenUp v.sent kept) (check_available range page)
                  u i' (λ a e. checked.1))
                (λ x a i'' q'. (
                  λ t s. elim (laws.inserted page x.db t s) [
                    | inl old ↦ i'' t old
                    | inr new ↦ check_settlements-IsValid page t checked.0 new
                  ],
                  q',
                ))))

  -- The progress that a turn makes before its end.
  abbrev Advanced : Turn → World → Progress → Type 0
  Advanced turn w p =
      (now : DateTime) × ((now ≡ turn.scanned_at) ⊎ (now ≡ turn.rescanned_at))
      × AfterScan now p.exclude_missing_after p.exclude_missing_after w p.state

  advance-Advanced :
      (turn : Turn) (range : FundingDownloadRange) (exclude : Option DateTime)
      (new_state : FundingSettlementsState) (w : World)
      → OnlyValid w
      → AfterScan turn.scanned_at exclude exclude w new_state
      → Ends OnlyValid (Advanced turn) (advance config turn range exclude new_state w)
  unfolding advance
  advance-Advanced turn range exclude new_state w h q =
      elim (Bool-cases (persists range new_state)) [
        | inl e ↦
            let to = funding_range_to range in
            rw e (
              then_step-Ends OnlyValid (AfterScan turn.rescanned_at to to) (Advanced turn) _ _
                (evaluate_and_send-AfterScan turn.rescanned_at turn.listens_again to to w h
                  (persisting-GivenUp range new_state w.sent e q.1))
                (λ v s i k. (i, (turn.rescanned_at, inr refl, k))))
        | inr e ↦ rw e (h, (turn.scanned_at, inl refl, q))
      ]

  has_missing-IsBackfilled :
      (turn : Turn) (w : World) (p : Progress)
      → Advanced turn w p
      → has_missing p.state ≡ ok false
      → IsBackfilled turn w (is_synced p.state turn.ended_at)
  unfolding is_synced
  has_missing-IsBackfilled turn w p (now, at_turn, (scan, sent, given_up)) h =
      let s = p.state in
      let kept =
        funding_state_new-bounds (get_missing_settlement_times w.db) now (stored_bounds w.db)
          (some config.funding_settlement_reach) config.flag_missing_range p.exclude_missing_after s
          scan in
      let complete_from = has_missing-false s config.funding_settlement_reach kept.1 h in
      record {
        state = s;
        start = complete_from.0.0;
        end = complete_from.0.1;
        now = now;
        exclude = p.exclude_missing_after;
        at_turn = at_turn;
        evaluated = scan;
        given_up = given_up;
        sent_last = sent;
        stored = sym kept.0 ∙ complete_from.1;
        complete = complete_from.3;
        reached = complete_from.2;
        up_to_date =
            ap (λ b. ends_at_least b (floor_funding_settlement_time turn.ended_at)) complete_from.1;
      }

  -- What the end of a turn ensures.
  abbrev AtEnd : Turn → World → TurnEnd → Type 0
  AtEnd turn w (continued p) = GivenUp w.sent p.exclude_missing_after
  AtEnd turn w (returned synced) = IsBackfilled turn w synced

  finish_turn-AtEnd :
      (turn : Turn) (range : FundingDownloadRange) (p : Progress) (w : World)
      → OnlyValid w
      → Advanced turn w p
      → Ends OnlyValid (AtEnd turn) (finish_turn turn range p w)
  unfolding finish_turn
  finish_turn-AtEnd turn range p w h q =
      let checked =
        λ (v : World) (lacks : Bool). Advanced turn v p × (has_missing p.state ≡ ok lacks) in
      then_step-Ends OnlyValid checked (AtEnd turn) _ _
        (map_err-Ends OnlyValid checked fatal (has_missing p.state) w h (λ lacks e. (q, e)))
        (λ v lacks i k. elim (Bool-cases lacks) [
          | inl e ↦ rw e (i, k.0.2.2)
          | inr e ↦
              let back = has_missing-IsBackfilled turn v p k.0 (rw e at k.1) in
              elim (Bool-cases
                (is_synced p.state turn.ended_at || is_none_time (funding_range_to range))) [
                  | inl ends ↦ rw (e, ends) (i, back)
                  | inr goes ↦ rw (e, goes) (i, k.0.2.2)
                ]
        ])

  backfill_turn-AtEnd :
      (turn : Turn) (p : Progress) (w : World)
      → OnlyValid w
      → GivenUp w.sent p.exclude_missing_after
      → Ends OnlyValid (AtEnd turn) (backfill_turn config turn p w)
  unfolding backfill_turn
  backfill_turn-AtEnd turn p w h g =
      let exclude = p.exclude_missing_after in
      then_step-Ends OnlyValid (λ v range. GivenUp v.sent exclude) (AtEnd turn) _ _
        (map_err-Ends OnlyValid (λ v range. GivenUp v.sent exclude) fatal
          (next_settlements_range p.state true) w h (λ range e. g))
        (λ v range i q.
          then_step-Ends OnlyValid (λ v a. GivenUp v.sent exclude) (AtEnd turn) _ _
            (partial_download-OnlyValid turn range exclude v i q)
            (λ u a i' q'.
              then_step-Ends OnlyValid (AfterScan turn.scanned_at exclude exclude) (AtEnd turn) _ _
                (evaluate_and_send-AfterScan turn.scanned_at turn.listens exclude exclude u i' q')
                (λ x s j k.
                  then_step-Ends OnlyValid (Advanced turn) (AtEnd turn) _ _
                    (advance-Advanced turn range exclude s x j k)
                    (λ y next l m. finish_turn-AtEnd turn range next y l m))))

  TurnEnd-cases :
      (end : TurnEnd)
      → ((p : Progress) × (end ≡ continued p)) ⊎ ((synced : Bool) × (end ≡ returned synced))
  TurnEnd-cases (continued p) = inl (p, refl)
  TurnEnd-cases (returned synced) = inr (synced, refl)

  -- What a backfill ensures that has returned in one of the turns, or still runs after them.
  abbrev pub ReturnedIn : List Turn → World → Bool → Type 0
  ReturnedIn [] w synced = ⊥
  ReturnedIn (turn ∷ turns) w synced = IsBackfilled turn w synced ⊎ ReturnedIn turns w synced

  abbrev pub AtReturn : List Turn → World → Option Bool → Type 0
  AtReturn turns w none = Unit
  AtReturn turns w (some synced) = ReturnedIn turns w synced

  later_turn :
      (turn : Turn) (turns : List Turn) (w : World) (o : Option Bool)
      → AtReturn turns w o
      → AtReturn (turn ∷ turns) w o
  later_turn turn turns w none h = tt
  later_turn turn turns w (some synced) h = inr h

  Ends-later_turn :
      (turn : Turn) (turns : List Turn) (r : World × Result (Option Bool) Failure)
      → Ends OnlyValid (AtReturn turns) r
      → Ends OnlyValid (AtReturn (turn ∷ turns)) r
  Ends-later_turn turn turns (w, ok o) h = (h.0, later_turn turn turns w o h.1)
  Ends-later_turn turn turns (w, err e) h = h

  backfill_loop-AtReturn :
      (turns : List Turn) (p : Progress) (w : World)
      → OnlyValid w
      → GivenUp w.sent p.exclude_missing_after
      → Ends OnlyValid (AtReturn turns) (backfill_loop config turns p w)
  unfolding backfill_loop
  backfill_loop-AtReturn [] p w h g = (h, tt)
  backfill_loop-AtReturn (turn ∷ turns) p w h g =
      then_step-Ends OnlyValid (AtEnd turn) (AtReturn (turn ∷ turns)) _ _
        (backfill_turn-AtEnd turn p w h g)
        (λ v end i q. elim (TurnEnd-cases end) [
          | inl (next, e) ↦
              rw e
                (Ends-later_turn turn turns _ (backfill_loop-AtReturn turns next v i (rw e at q)))
          | inr (synced, e) ↦ rw e (i, inl (rw e at q))
        ])

  -- A backfill stores settlement times only, also where it fails, if inserting a page stores nothing
  -- but its settlements. Where it returns, in one of its turns, the state that it sent last is a scan,
  -- in that turn, of what is stored in the range to be checked, if one is given, which stops early, if
  -- at all, before a time that a state it sent reports as missing; this scan found nothing missing; the
  -- stored history goes back to the reach time; and the result tells whether the history goes on to the
  -- last settlement time when that turn ends.
  pub backfill-AtReturn :
      (now : DateTime) (listens : Bool) (turns : List Turn) (w : World)
      → OnlyValid w
      → Ends OnlyValid (AtReturn turns) (backfill config now listens turns w)
  unfolding backfill
  backfill-AtReturn now listens turns w h =
      then_step-Ends OnlyValid (AfterScan now none none) (AtReturn turns) _ _
        (evaluate_and_send-AfterScan now listens none none w h tt)
        (λ v s i q. backfill_loop-AtReturn turns _ v i tt)
