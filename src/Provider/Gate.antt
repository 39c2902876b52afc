-- ===== src/Provider/Gate.antt =====
-- internal/provider/limiter.go and the checks of availability.go: what the gate persists about a
-- provider's limits, and how it refuses a request because of it. Each method runs under `stateMu`,
-- so it is one step on the table; `now` is the reading of `g.clock`, and the log lines that a method
-- writes are part of its result.
mod Blocking
mod Persist
mod Circuit
mod History
mod Disabled
mod Scenarios
use subsyncd.Common.{
  ℕ, suc, ◌+◌, ◌-◌, ◌*◌, Bool, true, false, not, ◌&&◌, ◌||◌, Option, none, some, List, [], ◌∷◌,
  if◌then◌else◌, ltb, ◌==◌, get_or, min,
}
use subsyncd.Common.Int.{ℤ, pos}
use subsyncd.Common.Text.{String, str_eq, starts_with, ◌<+>◌}
use subsyncd.Common.Time.{Instant, Duration, after, before, minute, hour}
use subsyncd.Provider.State.{
  Operation, all, search, download, download_transfer, auth, same_op, ProviderState, empty_state,
  Rows, put_provider_state, Faults, Failure, cooldown_error, disabled_error, availability_error,
  context_error, Result, ok, err, get_provider_state, exhausted,
}

-- `MaxProviderCooldown`
abbrev pub max_provider_cooldown : Duration
max_provider_cooldown = 172_800_000_000_000

-- `transientFailureDelays`
abbrev pub transient_failure_delays : List Duration
transient_failure_delays = minute ∷ 5 * minute ∷ 15 * minute ∷ hour ∷ []

pub record Throttle : Type 0 where
  pub provider_id : String
  pub scope : Operation
  pub reason : String
  pub limit : ℤ
  pub remaining : ℤ
  pub reset_at : Instant
  pub disabled : Bool

-- What a method logs.
pub data Event : Type 0 where
  auth_disabled : String → Event
  cooldown_started : String → Operation → String → Instant → Event
  circuit_opened : String → Operation → String → ℕ → Instant → Event
  recovered : String → Operation → ℕ → Event

-- `strings.HasPrefix(reason, "transient_")`
unfoldable pub is_transient : String → Bool
is_transient reason = starts_with reason "transient_"

-- `boundedReset`
unfoldable pub bounded_reset : Instant → Instant → Instant
bounded_reset now reset_at =
    let limit = now + max_provider_cooldown in if after reset_at limit then limit else reset_at

-- `boundedProviderReason`
unfoldable pub bounded_provider_reason : String → String
bounded_provider_reason reason =
    if str_eq reason "ratelimit"
      || str_eq reason "x-ratelimit"
      || str_eq reason "retry-after"
      || str_eq reason "json"
      || str_eq reason "fallback"
      || str_eq reason "rate_limit"
      || str_eq reason "download_quota"
      || str_eq reason "search_quota"
      || str_eq reason "service_busy"
      || str_eq reason "client_blocked"
    then reason
    else if str_eq reason "transient_network_error" || str_eq reason "network_error"
    then "network_error"
    else if starts_with reason "transient_http_5"
    then "http_5xx"
    else "provider_state"

-- `previousState`, once the read has succeeded: the row, or the zero state and `found = false`.
abbrev pub row_or_zero : Option ProviderState → ProviderState
row_or_zero none = empty_state "" all
row_or_zero (some s) = s

abbrev is_found : Option ProviderState → Bool
is_found none = false
is_found (some s) = true

-- The state that `persist` first builds from a throttle.
abbrev throttle_state : Throttle → ℕ → ProviderState
throttle_state t attempt = record {
  provider_id = t.provider_id;
  scope = t.scope;
  reason = t.reason;
  limit = t.limit;
  remaining = t.remaining;
  reset_at = t.reset_at;
  disabled = t.disabled;
  failure_attempt = attempt;
}

-- A cooldown that a provider asked for, and not a circuit that the gate opened.
abbrev pub explicit_cooldown : Instant → ProviderState → Bool
explicit_cooldown now s = exhausted now s && not (is_transient s.reason)

-- The state that `persist` writes, from the previous row and the bounded throttle.
pub merge_throttle : Instant → Option ProviderState → Throttle → ProviderState
merge_throttle now row t =
    let previous = row_or_zero row in
    let state = throttle_state t previous.failure_attempt in
    if previous.disabled
    then previous
    else if not state.disabled && is_found row && explicit_cooldown now previous
    then (if not (exhausted now state) || before state.reset_at previous.reset_at
        then record state {
          reason = previous.reason;
          limit = previous.limit;
          remaining = previous.remaining;
          reset_at = previous.reset_at;
        }
        else state)
    else state

-- What `persist` logs about the state that it wrote.
persist_events : Instant → Option ProviderState → ProviderState → List Event
persist_events now row state =
    let previous = row_or_zero row in
    if same_op state.scope auth && state.disabled && (not (is_found row) || not previous.disabled)
    then auth_disabled state.provider_id ∷ []
    else if (not state.disabled && exhausted now state)
        && (not (is_found row && not previous.disabled && exhausted now previous)
            || not (previous.reset_at == state.reset_at)
            || not (str_eq previous.reason state.reason))
    then cooldown_started state.provider_id state.scope (bounded_provider_reason state.reason)
        state.reset_at
      ∷ []
    else []

-- The reset that `persist` reports to its caller.
effective_reset : Throttle → ProviderState → Instant
effective_reset t state =
    if not state.disabled && after state.reset_at t.reset_at then state.reset_at else t.reset_at

-- `persist` after its read.
persist_row :
    Instant → Faults → Throttle → Rows → Option ProviderState → Rows × Result (Instant × List Event)
unfolding merge_throttle persist_events effective_reset
persist_row now f t rows row =
    let state = merge_throttle now row t in
    if f.write_fails
    then (rows, err availability_error)
    else (put_provider_state state rows, ok (effective_reset t state, persist_events now row state))

-- `persist`
unfoldable pub persist : Instant → Faults → Throttle → Rows → Rows × Result (Instant × List Event)
unfolding persist_row bounded_reset
persist now f throttle rows =
    let t = record throttle { reset_at = bounded_reset now throttle.reset_at } in
    elim (get_provider_state f rows t.provider_id t.scope) [
      | err e ↦ (rows, err e)
      | ok row ↦ persist_row now f t rows row
    ]

-- The reason under which a failure is recorded.
pub transient_reason : String → String
unfolding is_transient
transient_reason reason =
    if str_eq reason ""
    then "transient_failure"
    else if not (is_transient reason)
    then "transient_" <+> reason
    else reason

-- `attempt`: one more than the row's count, if it has one.
abbrev pub next_attempt : ProviderState → ℕ
next_attempt existing = if ltb 0 existing.failure_attempt then existing.failure_attempt + 1 else 1

-- The end of the circuit: a reset that the provider gave and that lies ahead, or the delay of the
-- attempt. `index` is at most the last of the table.
pub circuit_reset : Instant → Instant → ℕ → Instant
unfolding bounded_reset
circuit_reset now reset_at attempt =
    let bounded = bounded_reset now reset_at in
    if after bounded now
    then bounded
    else now + get_or transient_failure_delays (min (attempt - 1) 3) 0

-- The state that `RecordTransientFailure` writes over the row.
pub merge_failure : Instant → String → Operation → String → Instant → ProviderState → ProviderState
merge_failure now id op reason reset_at existing =
    let attempt = next_attempt existing in
    let state = record (empty_state id op) {
      reason = reason;
      reset_at = reset_at;
      failure_attempt = attempt;
    } in
    if existing.disabled
    then record existing { failure_attempt = attempt }
    else if explicit_cooldown now existing
    then record state {
      reason = existing.reason;
      limit = existing.limit;
      remaining = existing.remaining;
      disabled = existing.disabled;
      reset_at = if after existing.reset_at reset_at then existing.reset_at else reset_at;
    }
    else state

record_row :
    Instant
    → Faults
    → String
    → Operation
    → String
    → Instant
    → Rows
    → Option ProviderState
    → Rows × Result (ProviderState × List Event)
unfolding merge_failure circuit_reset transient_reason
record_row now f id op reason reset_at rows row =
    let existing = row_or_zero row in
    let attempt = next_attempt existing in
    let until = circuit_reset now reset_at attempt in
    let state = merge_failure now id op (transient_reason reason) until existing in
    if f.write_fails then (rows, err availability_error) else (
      put_provider_state state rows,
      ok (
        state,
        circuit_opened id op (bounded_provider_reason (transient_reason reason)) attempt until ∷ [],
      ),
    )

-- `RecordTransientFailure`
unfoldable pub record_transient_failure :
    Instant
    → Faults
    → String
    → Operation
    → String
    → Instant
    → Rows
    → Rows × Result (ProviderState × List Event)
unfolding record_row
record_transient_failure now f id op reason reset_at rows = elim (get_provider_state f rows id op) [
  | err e ↦ (rows, err e)
  | ok row ↦ record_row now f id op reason reset_at rows row
]

-- The state that `ResetTransientFailures` writes: a circuit is closed, any other limit stays.
pub clear_failures : ProviderState → ProviderState
clear_failures s =
    if is_transient s.reason
    then record s {
      reason = "";
      limit = pos 0;
      remaining = pos 0;
      reset_at = 0;
      disabled = false;
      failure_attempt = 0;
    }
    else record s { failure_attempt = 0 }

reset_row : Faults → String → Operation → Rows → Option ProviderState → Rows × Result (List Event)
unfolding clear_failures
reset_row f id op rows none = (rows, ok [])
reset_row f id op rows (some s) =
    if s.failure_attempt == 0
    then (rows, ok [])
    else if f.write_fails
    then (rows, err availability_error)
    else (put_provider_state (clear_failures s) rows, ok (recovered id op s.failure_attempt ∷ []))

-- `ResetTransientFailures`
unfoldable pub reset_transient_failures :
    Faults → String → Operation → Rows → Rows × Result (List Event)
unfolding reset_row
reset_transient_failures f id op rows = elim (get_provider_state f rows id op) [
  | err e ↦ (rows, err e)
  | ok row ↦ reset_row f id op rows row
]

-- `blocked`, the cooldown found so far: its scope, its reason and its reset.
abbrev Blocked : Type 0
Blocked = Option (Operation × String × Instant)

later_than : Instant → Blocked → Bool
later_than reset_at none = true
later_than reset_at (some (_, _, latest)) = after reset_at latest

-- The loop's body for a row that is not disabled.
note_cooldown : Instant → Bool → Operation → ProviderState → Blocked → Blocked
unfolding later_than
note_cooldown now include_auth scope s blocked =
    if same_op scope auth && not include_auth
    then blocked
    else if exhausted now s && later_than s.reset_at blocked
    then some (scope, s.reason, s.reset_at)
    else blocked

abbrev blocked_error : String → Blocked → Option Failure
blocked_error id none = none
blocked_error id (some (scope, reason, reset_at)) =
    some (cooldown_error id scope reason reset_at true)

-- The loop over the scopes. `none` is a nil error.
check_scopes : Instant → Faults → Rows → String → Bool → List Operation → Blocked → Option Failure
unfolding note_cooldown
check_scopes now f rows id include_auth [] blocked = blocked_error id blocked
check_scopes now f rows id include_auth (scope ∷ scopes) blocked =
    elim (get_provider_state f rows id scope) [
      | err e ↦ some e
      | ok none ↦ check_scopes now f rows id include_auth scopes blocked
      | ok (some s) ↦ elim s.disabled [
        | true ↦ some (disabled_error id s.reason true)
        | false ↦
            check_scopes now f rows id include_auth scopes
              (note_cooldown now include_auth scope s blocked)
      ]
    ]

-- `checkAvailability`; `ctx_done` is `ctx.Err() != nil`.
unfoldable pub check_availability :
    Instant → Faults → Rows → Bool → String → Bool → List Operation → Option Failure
unfolding check_scopes
check_availability now f rows ctx_done id include_auth scopes =
    if ctx_done then some context_error else check_scopes now f rows id include_auth scopes none

-- `checkState`, which `Acquire` calls before it waits and again before it grants.
unfoldable pub check_state : Instant → Faults → Rows → Bool → String → Operation → Option Failure
unfolding check_availability
check_state now f rows ctx_done id op =
    check_availability now f rows ctx_done id (same_op op auth) (all ∷ auth ∷ op ∷ [])

-- `Client.CheckDownloadAvailability` and `Client.CheckSearchAvailability`
unfoldable pub check_download_availability :
    Instant → Faults → Rows → Bool → String → Option Failure
unfolding check_availability
check_download_availability now f rows ctx_done id =
    check_availability now f rows ctx_done id false (all ∷ auth ∷ download ∷ download_transfer ∷ [])

unfoldable pub check_search_availability : Instant → Faults → Rows → Bool → String → Option Failure
unfolding check_availability
check_search_availability now f rows ctx_done id =
    check_availability now f rows ctx_done id false (all ∷ auth ∷ search ∷ [])
