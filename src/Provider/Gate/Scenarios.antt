-- ===== src/Provider/Gate/Scenarios.antt =====
-- The gate's theorems at one provider: a download quota, a network failure, a refused login.
use subsyncd.Provider.Gate.{
  persist, record_transient_failure, Throttle, reset_transient_failures, is_transient,
  merge_failure, merge_throttle, check_availability, Event, check_state, circuit_reset,
  transient_reason, explicit_cooldown,
}
use subsyncd.Provider.State.{
  ProviderState, Rows, put_provider_state, Result, download, IsKeyed, get_provider_state, auth,
  put_provider_state-IsKeyed, no_faults, exhausted,
}
use subsyncd.Provider.Gate.History.{
  AreSane, Turn, run, run-AreSane, persists, fails, succeeds, put-AreSane, IsSane,
}
use subsyncd.Common.Time.{Instant, hour, minute}
use subsyncd.Common.{
  List, none, ◌+◌, true, ◌≡◌, false, some, arith, ◌∷◌, ◌*◌, refl, [], ◌<◌, ℕ, ◌⊎◌,
}
use subsyncd.Common.Int.{pos}
use subsyncd.Provider.Gate.Blocking.{is_none, check_availability_lem}
use subsyncd.Provider.Gate.Persist.{Keeps, persist-Keeps, persist-blocks}
use subsyncd.Provider.Gate.Disabled.{Off, run-Off}
use subsyncd.Provider.Gate.Circuit.{
  record_transient_failure-blocks, reset_transient_failures-closes,
}

abbrev noon : Instant
noon = 1_000_000_000_000_000_000

-- A download quota that ends in an hour.
abbrev quota_row : ProviderState
quota_row = record {
  provider_id = "os";
  scope = download;
  reason = "download_quota";
  limit = pos 20;
  remaining = pos 0;
  reset_at = noon + hour;
  disabled = false;
  failure_attempt = 0;
}

abbrev circuit_row : ProviderState
circuit_row = record quota_row {
  reason = "transient_network_error";
  limit = pos 0;
  reset_at = noon + minute;
  failure_attempt = 1;
}

abbrev refused_row : ProviderState
refused_row = record quota_row { scope = auth; reason = "authentication_failed"; disabled = true }

abbrev only : ProviderState → Rows
only s = put_provider_state s (λ id op. none)

only-IsKeyed : (s : ProviderState) → IsKeyed (only s)
only-IsKeyed s = put_provider_state-IsKeyed s (λ id op. none) (λ id op s' e. cc)

-- A response that was in flight and knows of a shorter limit.
abbrev short_throttle : Throttle
short_throttle = record {
  provider_id = "os";
  scope = download;
  reason = "ratelimit";
  limit = pos 5;
  remaining = pos 0;
  reset_at = noon + minute;
  disabled = false;
}

check_availability_example :
    is_none (check_availability noon no_faults (only quota_row) false "os" false (download ∷ []))
    ≡ false
unfolding put_provider_state
check_availability_example =
    (check_availability_lem noon false (only quota_row) "os" (download ∷ [])).0

persist-Keeps_example :
    Keeps quota_row short_throttle (persist noon no_faults short_throttle (only quota_row)).0
unfolding put_provider_state is_transient
persist-Keeps_example =
    persist-Keeps noon no_faults short_throttle (only quota_row) quota_row (only-IsKeyed quota_row)
      refl refl refl

persist-blocks_example :
    is_none (
      check_state
        (noon + 2 * minute)
        no_faults
        (persist noon no_faults short_throttle (only quota_row)).0
        false
        "os"
        download)
    ≡ false
unfolding persist get_provider_state put_provider_state is_transient merge_throttle
persist-blocks_example =
    persist-blocks noon (noon + 2 * minute) no_faults short_throttle (only quota_row) _
      (noon + hour) _ (only-IsKeyed quota_row) refl refl (omega arith)

abbrev broken : Rows × Result (ProviderState × List Event)
broken = record_transient_failure noon no_faults "os" download "network_error" 0 (only circuit_row)

record_transient_failure-blocks_example :
    broken.0 "os" download
    ≡ some (record circuit_row { reset_at = noon + 5 * minute; failure_attempt = 2 })
unfolding record_transient_failure get_provider_state put_provider_state is_transient merge_failure
    circuit_reset transient_reason
record_transient_failure-blocks_example =
    (record_transient_failure-blocks noon (noon + minute) no_faults "os" download "network_error" 0
      (only circuit_row) broken.0 _ _ (only-IsKeyed circuit_row) refl).0

reset_transient_failures-closes_example :
    (s : ProviderState) × ((reset_transient_failures no_faults "os" download (only circuit_row)).0
        "os" download
      ≡ some s)
    × (s.failure_attempt ≡ 0)
    × (explicit_cooldown noon s ≡ explicit_cooldown noon circuit_row)
    × (◌≡◌ {A = ℕ} 1 0
        ⊎ (is_transient circuit_row.reason ≡ false)
        ⊎ (s.disabled ≡ false) × (exhausted noon s ≡ false) × (s.reset_at ≡ 0) × (s.reason ≡ ""))
    × ((is_transient circuit_row.reason ≡ true) ⊎ (s ≡ record circuit_row { failure_attempt = 0 }))
    × ((0 < 1) ⊎ (s ≡ circuit_row))
unfolding put_provider_state
reset_transient_failures-closes_example =
    reset_transient_failures-closes noon "os" download (only circuit_row) circuit_row
      (only-IsKeyed circuit_row) refl

abbrev turns : List Turn
turns =
    record { at = noon; faults = no_faults; call = persists short_throttle }
    ∷ record { at = noon + 1; faults = no_faults; call = fails "os" download "http_503" 0 }
    ∷ record { at = noon + 2; faults = no_faults; call = succeeds "os" download }
    ∷ []

refused-IsSane : IsSane noon refused_row
unfolding is_transient
refused-IsSane = record { bounded = omega arith; honest = λ d. refl }

refused-AreSane : AreSane noon (only refused_row)
refused-AreSane = put-AreSane noon refused_row _ refused-IsSane (λ id op s e. cc)

run-AreSane_example : AreSane (noon + 2) (run (only refused_row) turns)
run-AreSane_example =
    run-AreSane noon (only refused_row) turns refused-AreSane
      (omega arith, λ d. cc, (omega arith, tt, (omega arith, tt, tt)))

run-Off_example : Off "authentication_failed" "os" auth (run (only refused_row) turns)
unfolding put_provider_state is_transient
run-Off_example =
    run-Off (only refused_row) turns "authentication_failed" "os" auth (only-IsKeyed refused_row)
      refl (refused_row, refl, refl, refl)
