-- ===== src/Worker/RouteGate.antt =====
-- internal/worker/route_gate.go: the language routes that are left out of the next search lease, and
-- the log of their pauses.
mod Scenarios
use subsyncd.Common.{
  Bool, List, Option, any, ◌∷◌, ℕ, not, ◌&&◌, some, if◌then◌else◌, true, ◌==◌, [], false, none, map,
  ◌++◌,
}
use subsyncd.Common.Time.{Instant}
use subsyncd.Common.Text.{String, str_eq}

-- `store.RouteKey`; `episodes` is the media kind.
pub record RouteKey : Type 0 where
  pub language : String
  pub episodes : Bool
  pub ranges_only : Bool

pub record RoutePause : Type 0 where
  pub key : RouteKey
  pub reset_at : Instant
  pub provider_count : ℕ

-- What `PausedRoutes` answers; the flag tells a cancellation or an expired deadline.
pub data GateAnswer : Type 0 where
  pauses_of : List RoutePause → GateAnswer
  gate_error : Bool → GateAnswer

pub data RouteEvent : Type 0 where
  check_failed : RouteEvent
  route_paused : RoutePause → RouteEvent
  route_resumed : RouteKey → RouteEvent

abbrev same_flag : Bool → Bool → Bool
same_flag true b = b
same_flag false b = not b

abbrev pub same_route : RouteKey → RouteKey → Bool
same_route a b =
    str_eq a.language b.language
    && same_flag a.episodes b.episodes
    && same_flag a.ranges_only b.ranges_only

-- `w.pausedRoutes`, as its entries.
abbrev pub is_known : List RoutePause → RoutePause → Bool
is_known paused p = any (λ q. same_route q.key p.key && q.reset_at == p.reset_at) paused

abbrev pub is_paused_key : List RoutePause → RouteKey → Bool
is_paused_key paused k = any (λ (q : RoutePause). same_route q.key k) paused

-- `current[pause.RouteKey] = pause` for each pause; a later pause replaces an earlier one.
unfoldable pub current_of : List RoutePause → List RoutePause
current_of [] = []
current_of (p ∷ ps) = let rest = current_of ps in if is_paused_key ps p.key then rest else p ∷ rest

unfoldable pub paused_events : List RoutePause → List RoutePause → List RouteEvent
paused_events known [] = []
paused_events known (p ∷ ps) =
    let rest = paused_events known ps in if is_known known p then rest else route_paused p ∷ rest

unfoldable pub resumed_events : List RoutePause → List RoutePause → List RouteEvent
resumed_events current [] = []
resumed_events current (q ∷ qs) =
    let rest = resumed_events current qs in
    if is_paused_key current q.key then rest else route_resumed q.key ∷ rest

-- `pausedRouteKeys`: the paused routes, the keys or `none` for an error, and what is logged. A gate
-- that is `none` is nil.
unfoldable pub paused_route_keys :
    List RoutePause → Option GateAnswer → List RoutePause × Option (List RouteKey) × List RouteEvent
unfolding current_of paused_events resumed_events
paused_route_keys known none = (known, some [], [])
paused_route_keys known (some (gate_error canceled)) =
    (known, none, if canceled then [] else check_failed ∷ [])
paused_route_keys known (some (pauses_of pauses)) =
    let current = current_of pauses in
    (
      current,
      some (map (λ (p : RoutePause). p.key) pauses),
      paused_events known pauses ++ resumed_events current known,
    )
