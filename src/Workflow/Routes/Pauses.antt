-- ===== src/Workflow/Routes/Pauses.antt =====
-- When a route is paused, and until when.
use mathlib.Core.Option.{some-injective, none-ne-some}
use subsyncd.Common.{
  Option, Bool, List, false, some, ltb, ◌≡◌, ◌||◌, ◌∷◌, ◌&&◌, none, [], any, true, not,
  if◌then◌else◌, sym, arith, Bool-cases, ap, inl, inr, refl, ◌∙◌, ◌++◌, Option-cases, subst,
}
use subsyncd.Workflow.Routes.{
  check_routes, RouteProvider, RouteAvailability, unavailable_reset, ProviderError, add_provider,
  cooldown, quota, route_availability, RouteStatus, no_availability, disabled, status_of, is_paused,
  other,
}
use subsyncd.Common.Time.{Instant}

-- Whether a provider of the route is one of those looked at: all of them that support the media
-- kind, or those among them that can cover several episodes.
abbrev pub serves : Option RouteProvider → Bool
serves none = false
serves (some p) = p.supports_kind

abbrev pub covers_ranges : Bool → Option RouteProvider → Bool
covers_ranges episode none = false
covers_ranges episode (some p) = p.supports_kind && episode && not p.single_episode_only

abbrev pub can_download : Option RouteProvider → Bool
can_download none = false
can_download (some p) = elim p.download_error [ none ↦ true | some e ↦ false ]

abbrev pub reset_of : Option RouteProvider → Instant
reset_of none = 0
reset_of (some p) = elim p.download_error [
  | none ↦ 0
  | some e ↦ elim (unavailable_reset e) [ none ↦ 0 | some reset ↦ reset ]
]

-- A subset of the route as one provider after the other is added to it.
abbrev summary :
    (Option RouteProvider → Bool)
    → List (Option RouteProvider)
    → RouteAvailability
    → RouteAvailability
summary among [] a = a
summary among (p ∷ ps) a =
    summary among ps (if among p then add_provider a (reset_of p) (can_download p) else a)

-- What the loop ends with.
abbrev Sums :
    Bool
    → List (Option RouteProvider)
    → RouteAvailability
    → RouteAvailability
    → RouteAvailability
    → RouteAvailability
    → Type 0
Sums episode ps all ranges all' ranges' =
    (all' ≡ summary serves ps all) × (ranges' ≡ summary (covers_ranges episode) ps ranges)

abbrev provider_of : Bool → Bool → Option ProviderError → Option RouteProvider
provider_of kind single e =
    some (record { supports_kind = kind; single_episode_only = single; download_error = e })

-- One provider, where the loop over the rest is as stated.
provider-Sums :
    (episode kind single : Bool) (e : Option ProviderError) (ps : List (Option RouteProvider))
    (all ranges all' ranges' : RouteAvailability)
    → let p = provider_of kind single e in
      ((a r : RouteAvailability)
        → check_routes episode ps a r ≡ some (all', ranges')
        → Sums episode ps a r all' ranges')
      → check_routes episode (p ∷ ps) all ranges ≡ some (all', ranges')
      → Sums episode (p ∷ ps) all ranges all' ranges'
unfolding check_routes
provider-Sums episode false single e ps all ranges all' ranges' rest h = rest all ranges h
provider-Sums episode true single none ps all ranges all' ranges' rest h = rest _ _ h
provider-Sums episode true single (some (cooldown t)) ps all ranges all' ranges' rest h = rest _ _ h
provider-Sums episode true single (some (quota t)) ps all ranges all' ranges' rest h = rest _ _ h
provider-Sums episode true single (some disabled) ps all ranges all' ranges' rest h = rest _ _ h
provider-Sums episode true single (some other) ps all ranges all' ranges' rest h =
    absurd (none-ne-some _ h)

check_routes-Sums :
    (episode : Bool) (ps : List (Option RouteProvider))
    (all ranges all' ranges' : RouteAvailability)
    → check_routes episode ps all ranges ≡ some (all', ranges')
    → Sums episode ps all ranges all' ranges'
unfolding check_routes
check_routes-Sums episode [] all ranges all' ranges' h =
    let e = some-injective (all, ranges) (all', ranges') h in
    (
      sym (ap (λ (r : RouteAvailability × RouteAvailability). r.0) e),
      sym (ap (λ (r : RouteAvailability × RouteAvailability). r.1) e),
    )
check_routes-Sums episode (none ∷ ps) all ranges all' ranges' h =
    check_routes-Sums episode ps all ranges all' ranges' h
check_routes-Sums episode (some p ∷ ps) all ranges all' ranges' h =
    provider-Sums episode p.supports_kind p.single_episode_only p.download_error ps all ranges all'
      ranges' (λ a r. check_routes-Sums episode ps a r all' ranges') h

step_available :
    (m c rest : Bool) (a : RouteAvailability) (reset : Instant)
    → ((if m then add_provider a reset c else a).available || rest)
      ≡ (a.available || (if m && c then true else rest))
step_available true true rest a reset = ground arith
step_available true false rest a reset = refl
step_available false c rest a reset = refl

step_count :
    (m c rest : Bool) (a : RouteAvailability) (reset : Instant)
    → (ltb 0 (if m then add_provider a reset c else a).count || rest)
      ≡ (ltb 0 a.count || (if m then true else rest))
step_count true true rest a reset = ground arith
step_count true false rest a reset = ground arith
step_count false c rest a reset = refl

-- A subset is paused exactly where it has members and none of them can download.
summary-paused :
    (among : Option RouteProvider → Bool) (ps : List (Option RouteProvider)) (a : RouteAvailability)
    → ((summary among ps a).available ≡ (a.available || any (λ p. among p && can_download p) ps))
      × (ltb 0 (summary among ps a).count ≡ (ltb 0 a.count || any among ps))
summary-paused among [] a = (ground arith, ground arith)
summary-paused among (p ∷ ps) a =
    let (open_, seen) =
      summary-paused among ps
        (if among p then add_provider a (reset_of p) (can_download p) else a) in
    (
      open_ ∙ step_available (among p) (can_download p) _ a (reset_of p),
      seen ∙ step_count (among p) (can_download p) _ a (reset_of p),
    )

-- The theorem's promise about a status.
abbrev pub members : (Option RouteProvider → Bool) → List (Option RouteProvider) → Bool
members among ps = any among ps && not (any (λ p. among p && can_download p) ps)

summary-members :
    (among : Option RouteProvider → Bool) (ps : List (Option RouteProvider))
    → is_paused (summary among ps no_availability) ≡ members among ps
summary-members among ps =
    let (open_, seen) = summary-paused among ps no_availability in rw open_ (rw seen refl)

status_paused :
    (all ranges : RouteAvailability) (m n : Bool)
    → is_paused all ≡ m
    → is_paused ranges ≡ n
    → ((status_of all ranges).paused ≡ m)
      × ((status_of all ranges).ranges_paused ≡ (not (status_of all ranges).paused && n))
status_paused all ranges m n h g = elim (Bool-cases (is_paused all)) [
  | inl y ↦ rw y (sym y ∙ h, refl)
  | inr x ↦ elim (Bool-cases (is_paused ranges)) [
    | inl z ↦ rw x (rw z (sym x ∙ h, sym z ∙ g))
    | inr w ↦ rw x (rw w (sym x ∙ h, sym w ∙ g))
  ]
]

module _ (episode : Bool) (preferred fallback : List (Option RouteProvider)) where
  status_none :
      check_routes episode (preferred ++ fallback) no_availability no_availability ≡ none
      → route_availability episode preferred fallback ≡ none
  unfolding route_availability
  status_none h = rw (h, route_availability) refl

  status_some :
      (all ranges : RouteAvailability)
      → check_routes episode (preferred ++ fallback) no_availability no_availability
        ≡ some (all, ranges)
      → route_availability episode preferred fallback ≡ some (status_of all ranges)
  unfolding route_availability
  status_some all ranges h = rw (h, route_availability) refl

-- The route is reported paused exactly where some provider supports the media kind and none of those
-- can download now, and, otherwise, paused for files of several episodes exactly where the same
-- holds of the providers that can cover them.
pub route_availability_lem :
    (episode : Bool) (preferred fallback : List (Option RouteProvider)) (status : RouteStatus)
    → route_availability episode preferred fallback ≡ some status
    → let ps = preferred ++ fallback in
      (status.paused ≡ members serves ps)
      × (status.ranges_paused ≡ (not status.paused && members (covers_ranges episode) ps))
route_availability_lem episode preferred fallback status h =
    let ps = preferred ++ fallback in
    elim (Option-cases (check_routes episode ps no_availability no_availability)) [
      | inl e ↦ absurd (none-ne-some _ (sym (status_none episode preferred fallback e) ∙ h))
      | inr ((all, ranges), e) ↦
          let s =
            some-injective _ _ (sym (status_some episode preferred fallback all ranges e) ∙ h) in
          let (a, r) = check_routes-Sums episode ps no_availability no_availability all ranges e in
          let f = ap is_paused a ∙ summary-members serves ps in
          let g = ap is_paused r ∙ summary-members (covers_ranges episode) ps in
          subst
            (λ (t : RouteStatus).
              (t.paused ≡ members serves ps)
              × (t.ranges_paused ≡ (not t.paused && members (covers_ranges episode) ps)))
            s (status_paused all ranges _ _ f g)
    ]
