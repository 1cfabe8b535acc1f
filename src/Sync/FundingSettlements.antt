-- ===== src/Sync/FundingSettlements.antt =====
-- src/sync/process/sync_funding_settlements_task/funding_settlements_state.rs. What the database and
-- the clock say are arguments.
pub mod Group
pub mod Reach
pub mod Scan
use quantoxide.Dates.Funding.{ceil_funding_settlement_time, floor_funding_settlement_time}
use quantoxide.Prelude.{
  Bool, List, Option, Result, [], drop, err, false, head?, if◌then◌else◌, last?, leb, ltb, none,
  not, ok, some, suc, true, ℕ, ◌&&◌, ◌*◌, ◌-◌, ◌==◌, ◌||◌, ◌∷◌,
}
use quantoxide.Sync.PriceHistory.{is_empty}
use quantoxide.Time.{DateTime, hour, second}

pub data FundingDownloadRange : Type 0 where
  latest_settlements : FundingDownloadRange
  settlements_from : DateTime → FundingDownloadRange
  missing : DateTime → DateTime → FundingDownloadRange
  settlements_until : DateTime → FundingDownloadRange

unfoldable pub funding_range_from : FundingDownloadRange → Option DateTime
funding_range_from (settlements_from from) = some from
funding_range_from (missing from to) = some from
funding_range_from latest_settlements = none
funding_range_from (settlements_until to) = none

unfoldable pub funding_range_to : FundingDownloadRange → Option DateTime
funding_range_to (settlements_until to) = some to
funding_range_to (missing from to) = some to
funding_range_to latest_settlements = none
funding_range_to (settlements_from from) = none

pub data SyncFundingSettlementsFatalError : Type 0 where
  unreachable_missing_settlement : DateTime → DateTime → SyncFundingSettlementsFatalError
  funding_settlements_state_reach_not_set : SyncFundingSettlementsFatalError
  api_settlements_not_available_before_history_start : DateTime → SyncFundingSettlementsFatalError
  invalid_settlement_time : DateTime → SyncFundingSettlementsFatalError

pub record FundingSettlementsState : Type 0 where
  pub reach_time : Option DateTime
  pub bounds : Option (DateTime × DateTime)
  pub missing_times : List DateTime

-- The error where a time lies before the reach time.
unfoldable pub require_reached {ℓ} :
    {A : Type ℓ}
    → Option DateTime
    → DateTime
    → Result A SyncFundingSettlementsFatalError
    → Result A SyncFundingSettlementsFatalError
require_reached none time r = r
require_reached (some reach) time r =
    if ltb time reach then err (unreachable_missing_settlement time reach) else r

-- The same for the first of some times.
unfoldable pub require_first_reached {ℓ} :
    {A : Type ℓ}
    → Option DateTime
    → Option DateTime
    → Result A SyncFundingSettlementsFatalError
    → Result A SyncFundingSettlementsFatalError
require_first_reached reach none r = r
require_first_reached reach (some first) r = require_reached reach first r

-- Where the scan for missing settlements begins and ends.
unfoldable pub scan_from : DateTime → DateTime → ℕ → DateTime
scan_from now earliest range =
    ceil_funding_settlement_time (if leb earliest (now - range) then now - range else earliest)

unfoldable pub scan_to : DateTime → Option DateTime → DateTime
scan_to latest_time none = latest_time
scan_to latest_time (some t) = floor_funding_settlement_time (t - second)

-- `query` is `get_missing_settlement_times`.
unfoldable pub scan_missing :
    (DateTime → DateTime → List DateTime) → DateTime → DateTime → List DateTime
scan_missing query from to = if ltb to from then [] else query from to

unfoldable pub missing_of :
    (DateTime → DateTime → List DateTime)
    → DateTime
    → DateTime
    → DateTime
    → Option ℕ
    → Option DateTime
    → List DateTime
missing_of query now earliest latest_time none exclude_missing_after = []
missing_of query now earliest latest_time (some range) exclude_missing_after =
    scan_missing query (scan_from now earliest range) (scan_to latest_time exclude_missing_after)

-- `new`, from the times of the earliest and the latest stored settlement.
unfoldable pub funding_state_new :
    (DateTime → DateTime → List DateTime)
    → DateTime
    → Option (DateTime × DateTime)
    → Option DateTime
    → Option ℕ
    → Option DateTime
    → Result FundingSettlementsState SyncFundingSettlementsFatalError
funding_state_new query now none reach flag_missing_range exclude_missing_after =
    ok record { reach_time = reach; bounds = none; missing_times = [] }
funding_state_new query now (some (earliest, latest_time)) reach flag_missing_range
      exclude_missing_after =
    let times =
      missing_of query now earliest latest_time flag_missing_range exclude_missing_after in
    if earliest == latest_time
    then require_reached reach earliest
        (ok record { reach_time = reach; bounds = some (earliest, earliest); missing_times = [] })
    else require_first_reached reach (head? times) (
        ok record {
          reach_time = reach;
          bounds = some (earliest, latest_time);
          missing_times = times;
        })

pub is_within : Option (DateTime × DateTime) → DateTime → DateTime → Bool
is_within none from to = false
is_within (some (start, end)) from to = leb start from && leb to end

pub is_settlement_range_available : FundingSettlementsState → DateTime → DateTime → Bool
is_settlement_range_available s from to = is_within s.bounds from to

-- `windows(2).rposition(..)`: the last place where two times are more than 8 hours apart.
unfoldable pub last_gap : List DateTime → Option ℕ
last_gap [] = none
last_gap (a ∷ []) = none
last_gap (a ∷ b ∷ ts) = elim (last_gap (b ∷ ts)) [
  | some i ↦ some (suc i)
  | none ↦ if ltb (8 * hour) (b - a) then some 0 else none
]

-- `map_or(0, |i| i + 1)`
abbrev pub after_gap : Option ℕ → ℕ
after_gap none = 0
after_gap (some i) = suc i

unfoldable pub latest_missing_group : List DateTime → Option (List DateTime)
latest_missing_group [] = none
latest_missing_group (t ∷ ts) = some (drop (after_gap (last_gap (t ∷ ts))) (t ∷ ts))

-- The end of `next_download_range`, where nothing is missing.
unfoldable pub extend_history : Option DateTime → Bool → DateTime × DateTime → FundingDownloadRange
extend_history none backfilling (start, end) = settlements_from end
extend_history (some reach) backfilling (start, end) =
    if backfilling && ltb reach start then settlements_until start else settlements_from end

-- The first and the last time of a group; a group has both.
unfoldable pub fill_ends :
    Option DateTime
    → Option DateTime
    → Option DateTime
    → Result FundingDownloadRange SyncFundingSettlementsFatalError
    → Result FundingDownloadRange SyncFundingSettlementsFatalError
fill_ends reach (some first) (some last) r = require_reached reach first (ok (missing first last))
fill_ends reach (some first) none r = r
fill_ends reach none last r = r

unfoldable pub fill_group :
    Option DateTime
    → Bool
    → DateTime × DateTime
    → Option (List DateTime)
    → Result FundingDownloadRange SyncFundingSettlementsFatalError
fill_group reach backfilling bounds none = ok (extend_history reach backfilling bounds)
fill_group reach backfilling bounds (some group) =
    fill_ends reach (head? group) (last? group) (ok (extend_history reach backfilling bounds))

unfoldable pub next_settlements_in :
    FundingSettlementsState
    → Bool
    → Option (DateTime × DateTime)
    → Result FundingDownloadRange SyncFundingSettlementsFatalError
next_settlements_in s backfilling none = ok latest_settlements
next_settlements_in s backfilling (some (start, end)) =
    let rest =
      fill_group s.reach_time backfilling (start, end) (latest_missing_group s.missing_times) in
    if start == end then require_reached s.reach_time start rest else rest

unfoldable pub next_settlements_range :
    FundingSettlementsState → Bool → Result FundingDownloadRange SyncFundingSettlementsFatalError
next_settlements_range s backfilling = next_settlements_in s backfilling s.bounds

unfoldable pub has_missing : FundingSettlementsState → Result Bool SyncFundingSettlementsFatalError
has_missing s = elim s.reach_time [
  | none ↦ err funding_settlements_state_reach_not_set
  | some reach ↦
      ok (elim s.bounds [ none ↦ true | some b ↦ not (is_empty s.missing_times) || ltb reach b.0 ])
]
