-- ===== src/Workflow/Routes.antt =====
-- internal/workflow/route_availability.go, and the classification of provider errors in service.go:
-- whether the providers of a language route can be asked for downloads.
mod Pauses
mod Scenarios
use subsyncd.Common.{
  if◌then◌else◌, Bool, List, ℕ, false, Option, ltb, some, not, ◌+◌, none, ◌++◌, true, ◌&&◌, ◌∷◌,
  ◌||◌, [],
}
use subsyncd.Common.Time.{Instant, is_zero, before, after}

-- A provider's error, as `errors.As` classifies it.
pub data ProviderError : Type 0 where
  cooldown : Instant → ProviderError
  quota : Instant → ProviderError
  disabled : ProviderError
  other : ProviderError

-- `unavailableReset`; `none` is `unavailable = false`.
abbrev pub unavailable_reset : ProviderError → Option Instant
unavailable_reset (cooldown reset_at) = some reset_at
unavailable_reset (quota reset_at) = some reset_at
unavailable_reset disabled = some 0
unavailable_reset other = none

-- The earlier of two resets, 0 being unknown.
abbrev pub earlier : Instant → Instant → Instant
earlier reset earliest =
    if not (is_zero reset) && (is_zero earliest || before reset earliest) then reset else earliest

unavailable_from : Instant → List ProviderError → Option Instant
unavailable_from earliest [] = some earliest
unavailable_from earliest (e ∷ es) = elim (unavailable_reset e) [
  | none ↦ none
  | some reset ↦ unavailable_from (earlier reset earliest) es
]

-- `unavailableErrors`
unfoldable pub unavailable_errors : List ProviderError → Option Instant
unfolding unavailable_from
unavailable_errors [] = none
unavailable_errors (e ∷ es) = unavailable_from 0 (e ∷ es)

-- `routeAvailability`
pub record RouteAvailability : Type 0 where
  pub count : ℕ
  pub available : Bool
  pub reset_at : Instant

abbrev pub no_availability : RouteAvailability
no_availability = record { count = 0; available = false; reset_at = 0 }

-- `add`
abbrev pub add_provider : RouteAvailability → Instant → Bool → RouteAvailability
add_provider a reset available =
    if available
    then record a { count = a.count + 1; available = true }
    else record a { count = a.count + 1; reset_at = earlier reset a.reset_at }

-- `paused`
abbrev pub is_paused : RouteAvailability → Bool
is_paused a = ltb 0 a.count && not a.available

-- A provider of the service: whether it supports the media kind, its capability, and what
-- `CheckDownloadAvailability` answers, `none` for nil.
pub record RouteProvider : Type 0 where
  pub supports_kind : Bool
  pub single_episode_only : Bool
  pub download_error : Option ProviderError

pub record RouteStatus : Type 0 where
  pub paused : Bool
  pub reset_at : Instant
  pub provider_count : ℕ
  pub ranges_paused : Bool
  pub ranges_reset_at : Instant

abbrev pub open_status : RouteStatus
open_status = record {
  paused = false;
  reset_at = 0;
  provider_count = 0;
  ranges_paused = false;
  ranges_reset_at = 0;
}

-- The loop over the providers; `none` is a state that cannot be read.
unfoldable pub check_routes :
    Bool
    → List (Option RouteProvider)
    → RouteAvailability
    → RouteAvailability
    → Option (RouteAvailability × RouteAvailability)
check_routes episode [] all ranges = some (all, ranges)
check_routes episode (none ∷ ps) all ranges = check_routes episode ps all ranges
check_routes episode (some p ∷ ps) all ranges =
    let skip = check_routes episode ps all ranges in
    if not p.supports_kind then skip else elim p.download_error [
      | none ↦
          check_routes episode ps (add_provider all 0 true)
            (if episode && not p.single_episode_only then add_provider ranges 0 true else ranges)
      | some e ↦ elim (unavailable_reset e) [
        | none ↦ none
        | some reset ↦ check_routes episode ps (add_provider all reset false) (
            if episode && not p.single_episode_only
            then add_provider ranges reset false
            else ranges)
      ]
    ]

abbrev pub status_of : RouteAvailability → RouteAvailability → RouteStatus
status_of all ranges =
    if is_paused all
    then record open_status { paused = true; reset_at = all.reset_at; provider_count = all.count }
    else if is_paused ranges
    then record open_status {
      ranges_paused = true;
      ranges_reset_at = ranges.reset_at;
      provider_count = ranges.count;
    }
    else open_status

-- `RouteAvailability`, over the preferred providers and then the fallback providers.
unfoldable pub route_availability :
    Bool → List (Option RouteProvider) → List (Option RouteProvider) → Option RouteStatus
unfolding check_routes
route_availability episode preferred fallback =
    elim (check_routes episode (preferred ++ fallback) no_availability no_availability) [
      | none ↦ none
      | some (all, ranges) ↦ some (status_of all ranges)
    ]

-- `consider`, and `preferredRetryAt` over a result's errors in any order.
abbrev pub consider : Instant → Instant → Instant → Instant
consider now reset next = if after reset now && before reset next then reset else next

pub preferred_retry_at : Instant → Instant → List ProviderError → Instant → Instant
preferred_retry_at now retry_at [] next = consider now retry_at next
preferred_retry_at now retry_at (e ∷ es) next =
    let rest = preferred_retry_at now retry_at es next in
    elim (unavailable_errors (e ∷ [])) [ none ↦ rest | some reset ↦ consider now reset rest ]
