-- ===== src/Schedule.antt =====
-- internal/schedule: when a search is tried again. A scheduler's clock and its source of randomness
-- are read once by each method, and are arguments here; jitter is computed in floating point.
mod Delays
mod Scenarios
use subsyncd.Common.{
  List, ℕ, Bool, ◌∷◌, ◌+◌, ltb, Option, ◌&&◌, if◌then◌else◌, max, ◌*◌, get_or, ◌||◌, false, not,
  leb, ◌==◌, true, min, none, length, [], some, ◌-◌,
}
use subsyncd.Common.Time.{Instant, Duration, minute, hour, is_zero, after, sub_ge}
use subsyncd.Common.Int.{ℤ, negsuc, ltb_ℤ, pos}
use subsyncd.Common.Text.{String}
use subsyncd.Common.Float.{Floats}

-- `missingIntervals`
abbrev pub missing_intervals : List Duration
missing_intervals =
    0 ∷ 6 * hour ∷ 6 * hour ∷ 12 * hour ∷ 48 * hour ∷ 96 * hour ∷ 168 * hour ∷ 336 * hour ∷ []

-- `AgedMissingAttempt`
abbrev pub aged_missing_attempt : ℕ
aged_missing_attempt = 6

-- `workflowFailureDelays` and `failureDelays`
abbrev pub workflow_failure_delays : List Duration
workflow_failure_delays = minute ∷ 5 * minute ∷ 15 * minute ∷ hour ∷ 6 * hour ∷ 24 * hour ∷ []

abbrev pub failure_delays : List Duration
failure_delays = minute ∷ 5 * minute ∷ 15 * minute ∷ hour ∷ []

-- `delayAt`: an index below the table takes its first entry, one above it its last.
unfoldable pub delay_at : ℤ → List Duration → Duration
delay_at (negsuc n) delays = get_or delays 0 0
delay_at (pos n) delays = get_or delays (if leb (length delays) n then length delays - 1 else n) 0

unfoldable pub failure_delay : ℤ → Duration
unfolding delay_at
failure_delay attempt = delay_at attempt failure_delays

unfoldable pub workflow_failure_delay : ℤ → Duration
unfolding delay_at
workflow_failure_delay attempt = delay_at attempt workflow_failure_delays

-- `UpgradeDelay`; a score is a number of points, and `none` is `(0, false)`.
unfoldable pub upgrade_delay : Bool → ℕ → Option Duration
upgrade_delay exact_hash score =
    if exact_hash || ltb score 35 || ltb 100 score
    then none
    else if leb 85 score
    then some (90 * 24 * hour)
    else if leb 60 score
    then some (30 * 24 * hour)
    else some (7 * 24 * hour)

-- `SearchPriorityMissing`
abbrev pub search_priority_missing : ℕ
search_priority_missing = 200

-- The fields of `store.SearchCompletion` that a scheduler sets.
pub record SearchCompletion : Type 0 where
  pub job_id : String
  pub outcome : String
  pub next_attempt_at : Instant
  pub advance_missing_attempt : Bool
  pub advance_failure_attempt : Bool
  pub reset_failure_attempt : Bool
  pub priority : ℕ
  pub missing_attempt_floor : ℕ

-- `aged`; `aged_after` is the scheduler's `AgedAfter`, 0 to keep the full schedule.
unfoldable pub aged : Duration → Instant → Instant → Bool
aged aged_after released_at now =
    ltb 0 aged_after
    && not (is_zero released_at)
    && not (after released_at now)
    && sub_ge now released_at aged_after

-- `ResumeTTL`. A negative attempt, for which Go would index out of range, does not occur.
unfoldable pub resume_ttl : Duration → Instant → ℕ → Instant → Duration
unfolding aged
resume_ttl aged_after now attempt released_at =
    let next = attempt + 1 in
    let next' =
      if aged aged_after released_at now && ltb next aged_missing_attempt
      then aged_missing_attempt
      else next in
    max (get_or missing_intervals (min next' 7) 0) (6 * hour)

-- `Failure`
unfoldable pub failure : Instant → String → ℤ → String → SearchCompletion
unfolding workflow_failure_delay
failure now job_id failure_attempt outcome = record {
  job_id = job_id;
  outcome = outcome;
  next_attempt_at = now + workflow_failure_delay failure_attempt;
  advance_missing_attempt = false;
  advance_failure_attempt = true;
  reset_failure_attempt = false;
  priority = 0;
  missing_attempt_floor = 0;
}

module _ (fl : Floats) where
  open fl use {F, of_ℕ, fifth, add, mul, lt, trunc}

  abbrev pub clamp_unit : F → F
  clamp_unit u = if lt u (of_ℕ 0) then of_ℕ 0 else if lt (of_ℕ 1) u then of_ℕ 1 else u

  -- An interval, lengthened by up to a fifth.
  unfoldable pub jittered : F → Duration → Duration
  jittered u interval = trunc (mul (of_ℕ interval) (add (of_ℕ 1) (mul fifth u)))

  -- `MissingDelay`
  unfoldable pub missing_delay : ℤ → F → Duration
  unfolding jittered
  missing_delay (negsuc n) u = 0
  missing_delay (pos n) u =
      if n == 0
      then 0
      else jittered (clamp_unit u) (get_or missing_intervals (if leb 8 n then 7 else n) 0)

  -- `Missing`; `u` is what `RandomUnit` gives.
  unfoldable pub missing : Duration → Instant → F → String → ℤ → Instant → SearchCompletion
  unfolding aged missing_delay
  missing aged_after now u job_id attempt released_at =
      let early = aged aged_after released_at now && ltb_ℤ attempt (pos aged_missing_attempt) in
      record {
        job_id = job_id;
        outcome = "missing";
        next_attempt_at =
            now + missing_delay (if early then pos aged_missing_attempt else attempt) u;
        advance_missing_attempt = true;
        advance_failure_attempt = false;
        reset_failure_attempt = true;
        priority = search_priority_missing;
        missing_attempt_floor = if early then aged_missing_attempt else 0;
      }
