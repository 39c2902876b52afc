-- ===== src/Workflow/Routes/Scenarios.antt =====
-- A route of two providers, one in a cooldown and one over its quota.
use subsyncd.Workflow.Routes.{
  route_availability, RouteStatus, open_status, RouteProvider, quota, cooldown,
}
use subsyncd.Common.{Option, ◌≡◌, true, ◌∷◌, some, none, [], false, not, refl, ◌*◌, ◌&&◌}
use subsyncd.Workflow.Routes.Pauses.{members, serves, covers_ranges, route_availability_lem}
use subsyncd.Common.Time.{hour}

abbrev cooling : Option RouteProvider
cooling = some (record {
  supports_kind = true;
  single_episode_only = false;
  download_error = some (cooldown (2 * hour));
})

abbrev spent : Option RouteProvider
spent = some (record {
  supports_kind = true;
  single_episode_only = true;
  download_error = some (quota hour);
})

abbrev both_out : RouteStatus
both_out = record open_status { paused = true; reset_at = hour; provider_count = 2 }

both_are_out : route_availability true (cooling ∷ []) (spent ∷ none ∷ []) ≡ some both_out
unfolding route_availability
both_are_out = refl

route_availability_example :
    (both_out.paused ≡ members serves (cooling ∷ spent ∷ none ∷ []))
    × (both_out.ranges_paused
        ≡ (not both_out.paused && members (covers_ranges true) (cooling ∷ spent ∷ none ∷ [])))
route_availability_example =
    route_availability_lem true (cooling ∷ []) (spent ∷ none ∷ []) both_out both_are_out
