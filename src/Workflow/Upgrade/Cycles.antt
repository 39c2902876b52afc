-- ===== src/Workflow/Upgrade/Cycles.antt =====
-- A replacement is not undone by the very next one (internal/workflow/upgrade.go,
-- provider_tiers.go).
use subsyncd.Common.Text.{String}
use subsyncd.Common.{
  Option, Bool, ◌≡◌, ◌&&◌, true, false, some, if◌then◌else◌, leb, ◌+◌, ℕ, ◌∙◌, ◌<◌, ap, sym, arith,
}
use subsyncd.Matching.Types.{Score}
use subsyncd.Workflow.Upgrade.{
  Service, Installation, Fingerprint, installation_matches_media, contains, preferred,
  installed_score, is_fallback_provider, should_upgrade_tiered, should_upgrade, delta_or_default,
}
use mathlib.Core.Option.{some-injective}
use subsyncd.Common.Int.{ℤ, pos, negsuc}

delta_positive : (delta : ℤ) → 0 < delta_or_default delta
delta_positive (pos n) = ground arith
delta_positive (negsuc n) = ground arith

-- The rule on its tests: of `a`, which is installed, and of `b`, whether each comes from a fallback
-- or a preferred provider and is exact, and their points.
abbrev replaced : Bool → Bool → Bool → Bool → Bool → Bool → ℕ → ℕ → ℕ → Bool
replaced fa fb pa pb ea eb x y d =
    if fa && pb
    then true
    else if pa && fb
    then false
    else if ea
    then false
    else if eb
    then true
    else leb (x + d) y

replaced_asym :
    (fa fb pa pb ea eb : Bool) (x y d : ℕ)
    → 0 < d
    → (pa && fa) ≡ false
    → (pb && fb) ≡ false
    → replaced fa fb pa pb ea eb x y d ≡ true
    → replaced fb fa pb pa eb ea y x d ≡ false
replaced_asym fa fb pa pb ea eb x y d n a b h = ground arith

module _ (clean : String → String) (decode : String → Option Score) (s : Service) where
  module _ (a b : Installation) (media : Fingerprint) (ra rb : Score × Bool)
      (ma : installation_matches_media clean a media ≡ true)
      (mb : installation_matches_media clean b media ≡ true)
      (sa : installed_score decode a ≡ some ra) (sb : installed_score decode b ≡ some rb) where
    -- The rule for two subtitles of one file, whose scores are known.
    tiered_lem :
        should_upgrade_tiered clean decode s a media b.provider_id rb.0.total rb.1
        ≡ some (
            replaced
              (is_fallback_provider s a.provider_id)
              (is_fallback_provider s b.provider_id)
              (contains (preferred s) a.provider_id)
              (contains (preferred s) b.provider_id)
              ra.1
              rb.1
              ra.0.total
              rb.0.total
              (delta_or_default s.minimum_upgrade_delta))
    unfolding should_upgrade_tiered should_upgrade
    tiered_lem = rw ma (rw (sa, should_upgrade) (ground arith))

  -- Where no provider is both preferred and a fallback, the rule that lets one subtitle replace
  -- another of the same file does not let that other replace it in turn, the scores of both being
  -- readable.
  pub should_upgrade_tiered-asym :
      (a b : Installation) (media : Fingerprint) (ra rb : Score × Bool)
      → ((id : String) → (contains (preferred s) id && is_fallback_provider s id) ≡ false)
      → installation_matches_media clean a media ≡ true
      → installation_matches_media clean b media ≡ true
      → installed_score decode a ≡ some ra
      → installed_score decode b ≡ some rb
      → should_upgrade_tiered clean decode s a media b.provider_id rb.0.total rb.1 ≡ some true
      → should_upgrade_tiered clean decode s b media a.provider_id ra.0.total ra.1 ≡ some false
  should_upgrade_tiered-asym a b media ra rb disjoint ma mb sa sb h =
      tiered_lem b a media rb ra mb ma sb sa
      ∙ ap some (
          replaced_asym (is_fallback_provider s a.provider_id)
            (is_fallback_provider s b.provider_id) (contains (preferred s) a.provider_id)
            (contains (preferred s) b.provider_id) ra.1 rb.1 ra.0.total rb.0.total
            (delta_or_default s.minimum_upgrade_delta) (delta_positive s.minimum_upgrade_delta)
            (disjoint a.provider_id) (disjoint b.provider_id)
            (some-injective _ _ (sym (tiered_lem a b media ra rb ma mb sa sb) ∙ h)))
