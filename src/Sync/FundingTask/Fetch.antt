-- ===== src/Sync/FundingTask/Fetch.antt =====
-- The retries of a request to the API.
use quantoxide.Prelude.{
  Bool-cases, List, Result, Result-cases, arith, err, false, inl, inr, leb, ok, refl, some, subst,
  suc, true, zero, ℕ, ◌+◌, ◌-◌, ◌<◌, ◌==◌, ◌≡◌,
}
use quantoxide.Sync.FundingSettlements.{FundingDownloadRange, funding_range_from, funding_range_to}
use quantoxide.Sync.FundingTask.{
  Failure, SettlementStore, TaskConfig, Turn, fetch_page, get_new_settlements, recoverable,
  request_to, rest_api_max_trials_reached,
}

module _ ⦃store : SettlementStore⦄ where
  open store use {ApiError, FundingSettlement}

  module _ (api : ℕ → Result (List FundingSettlement) ApiError) (max_trials : ℕ) where
    abbrev pub Fails : ℕ → Type 0
    Fails i = (e : ApiError) × (api i ≡ err e)

    -- The first page that comes within the trials, or the error of the last of them.
    abbrev pub IsFirstAnswer : Result (List FundingSettlement) Failure → Type 0
    IsFirstAnswer (ok page) =
        (n : ℕ) × (n < max_trials) × (api n ≡ ok page) × ((i : ℕ) → i < n → Fails i)
    IsFirstAnswer (err failure) =
        (e : ApiError) × (failure ≡ recoverable (rest_api_max_trials_reached e max_trials))
        × (api (max_trials - 1) ≡ err e)
        × ((i : ℕ) → i < max_trials → Fails i)

    Fails-below :
        (trials : ℕ)
        → ((i : ℕ) → i < trials → Fails i)
        → Fails trials
        → (i : ℕ) → i < suc trials
        → Fails i
    Fails-below trials h k i le = elim (Bool-cases (i == trials)) [
      | inl e ↦ let same : trials ≡ i = ground arith in subst Fails same k
      | inr e ↦ h i (ground arith)
    ]

    -- With this fuel there is a result, and it is the first answer.
    abbrev pub Answers : ℕ → ℕ → Type 0
    Answers trials fuel =
        (r : Result (List FundingSettlement) Failure) × (fetch_page api max_trials trials fuel
          ≡ some r)
        × IsFirstAnswer r

    abbrev AllFail : ℕ → Type 0
    AllFail trials = (i : ℕ) → i < trials → Fails i

    answered :
        (fuel trials : ℕ) (page : List FundingSettlement)
        → trials < max_trials
        → AllFail trials
        → api trials ≡ ok page
        → Answers trials (suc fuel)
    unfolding fetch_page
    answered fuel trials page lt failed e =
        (ok page, rw (fetch_page, e) refl, (trials, lt, e, failed))

    given_up :
        (fuel trials : ℕ) (e : ApiError)
        → suc trials ≡ max_trials
        → AllFail (suc trials)
        → api trials ≡ err e
        → Answers trials (suc fuel)
    unfolding fetch_page
    given_up fuel trials e last failed f =
        let is_last : leb max_trials (suc trials) ≡ true = ground arith in
        let at_last : trials ≡ max_trials - 1 = omega (arith, last) in
        (
          err (recoverable (rest_api_max_trials_reached e max_trials)),
          rw (fetch_page, f, is_last) refl,
          (e, refl, subst (λ i. api i ≡ err e) at_last f, subst AllFail last failed),
        )

    fetch_page-IsFirstAnswer :
        (fuel trials : ℕ)
        → trials + suc fuel ≡ max_trials
        → AllFail trials
        → Answers trials (suc fuel)
    unfolding fetch_page
    fetch_page-IsFirstAnswer zero trials enough failed = elim (Result-cases (api trials)) [
      | inl (page, e) ↦ answered zero trials page (omega (arith, enough)) failed e
      | inr (e, f) ↦
          given_up zero trials e (omega (arith, enough)) (Fails-below trials failed (e, f)) f
    ]
    fetch_page-IsFirstAnswer (suc left) trials enough failed = elim (Result-cases (api trials)) [
      | inl (page, e) ↦ answered (suc left) trials page (omega (arith, enough)) failed e
      | inr (e, f) ↦
          let more : leb max_trials (suc trials) ≡ false = ground (arith, enough) in
          let later =
            fetch_page-IsFirstAnswer left (suc trials) (omega (arith, enough))
              (Fails-below trials failed (e, f)) in
          (later.0, rw (fetch_page, f, more) later.1, later.2)
    ]

  -- With at least one trial the retries end, and the result is the first page that comes within the
  -- trials, or, where all of them fail, the error of the last one.
  pub get_new_settlements-IsFirstAnswer :
      (config : TaskConfig) (turn : Turn) (range : FundingDownloadRange)
      → 0 < config.rest_api_error_max_trials
      → IsFirstAnswer
          (turn.answers (funding_range_from range) (request_to (funding_range_to range)))
          config.rest_api_error_max_trials
          (get_new_settlements config turn range)
        × (fetch_page
              (turn.answers (funding_range_from range) (request_to (funding_range_to range)))
              config.rest_api_error_max_trials
              0
              config.rest_api_error_max_trials
            ≡ some (get_new_settlements config turn range))
  unfolding get_new_settlements
  get_new_settlements-IsFirstAnswer config turn range positive =
      let api = turn.answers (funding_range_from range) (request_to (funding_range_to range)) in
      let max_trials = config.rest_api_error_max_trials in
      let fuel : suc (max_trials - 1) ≡ max_trials = omega (arith, positive) in
      let done =
        fetch_page-IsFirstAnswer api max_trials (max_trials - 1) 0 (omega (arith, positive))
          (λ i lt. ground arith) in
      let answer = subst (Answers api max_trials 0) fuel done in rw answer.1 (answer.2, refl)
