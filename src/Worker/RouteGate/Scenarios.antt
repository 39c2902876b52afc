-- ===== src/Worker/RouteGate/Scenarios.antt =====
-- A route that is paused, and found paused again.
use subsyncd.Worker.RouteGate.{RoutePause, paused_route_keys, pauses_of, route_paused}
use subsyncd.Common.{◌∷◌, [], true, false, some, ◌≡◌, refl}

abbrev croatian : RoutePause
croatian = record {
  key = record { language = "hr"; episodes = true; ranges_only = false };
  reset_at = 5;
  provider_count = 2;
}

first_check :
    paused_route_keys [] (some (pauses_of (croatian ∷ [])))
    ≡ (croatian ∷ [], some (croatian.key ∷ []), route_paused croatian ∷ [])
unfolding paused_route_keys
first_check = refl

second_check :
    paused_route_keys (croatian ∷ []) (some (pauses_of (croatian ∷ [])))
    ≡ (croatian ∷ [], some (croatian.key ∷ []), [])
unfolding paused_route_keys
second_check = refl
