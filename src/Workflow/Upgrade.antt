-- ===== src/Workflow/Upgrade.antt =====
-- internal/workflow/upgrade.go and the tier rules of provider_tiers.go: when a candidate replaces the
-- subtitle that is installed, and when a better one is looked for. `filepath.Clean` and the decoder
-- of JSON are arguments; an error is `none`.
mod Cycles
mod Scenarios
use subsyncd.Common.Int.{ℤ, is_nonpos, pos_part}
use subsyncd.Common.Time.{Duration, Instant, is_zero, hour, after, sub_lt}
use subsyncd.Common.Text.{String, str_eq}
use subsyncd.Common.{
  List, Bool, none, Option, ℕ, if◌then◌else◌, ltb, some, any, ◌||◌, leb, ◌+◌, ◌&&◌, is_empty, not,
  false, ◌==◌, ◌*◌, true, [],
}
use subsyncd.Matching.Types.{Contribution, Score}
use subsyncd.Matching.Coverage.{eq_ℤ}

-- The fields of `store.Installation` that the rules read.
pub record Installation : Type 0 where
  pub provider_id : String
  pub score_json : String
  pub media_path : String
  pub media_file_id : ℤ
  pub media_size : ℤ
  pub media_mod_time_ns : ℤ

-- `domain.MediaFingerprint`
pub record Fingerprint : Type 0 where
  pub path : String
  pub file_id : ℤ
  pub size : ℤ
  pub mod_time_ns : ℤ

-- The service's fields that the rules read. `preferred_order` is `none` for nil.
pub record Service : Type 0 where
  pub provider_order : List String
  pub preferred_order : Option (List String)
  pub fallback_order : List String
  pub minimum_upgrade_delta : ℤ

abbrev pub contains : List String → String → Bool
contains ids id = any (str_eq id) ids

-- `InstallationMatchesMedia`
unfoldable pub installation_matches_media : (String → String) → Installation → Fingerprint → Bool
installation_matches_media clean i f =
    str_eq (clean i.media_path) (clean f.path)
    && eq_ℤ i.media_file_id f.file_id
    && eq_ℤ i.media_size f.size
    && eq_ℤ i.media_mod_time_ns f.mod_time_ns

abbrev pub is_exact : List Contribution → Bool
is_exact contributions =
    any (λ (k : Contribution). str_eq k.signal "exact_hash" && k.points == 100) contributions

-- `installedScore`: the score and whether it is an exact match.
unfoldable pub installed_score : (String → Option Score) → Installation → Option (Score × Bool)
installed_score decode i =
    if str_eq i.score_json "" || str_eq i.score_json "{}"
    then some (record { total = 0; contributions = []; rejected_reasons = [] }, false)
    else elim (decode i.score_json) [
      | none ↦ none
      | some score ↦ some (score, is_exact score.contributions)
    ]

-- `DefaultMinimumUpgradeDelta` and the first lines of `ShouldUpgrade`.
abbrev pub delta_or_default : ℤ → ℕ
delta_or_default delta = if is_nonpos delta then 10 else pos_part delta

-- `ShouldUpgrade`
unfoldable pub should_upgrade : (String → Option Score) → Installation → ℕ → Bool → ℤ → Option Bool
unfolding installed_score
should_upgrade decode existing total candidate_exact minimum_delta =
    elim (installed_score decode existing) [
      | none ↦ none
      | some (current, exact) ↦ some (
          if exact
          then false
          else if candidate_exact
          then true
          else leb (current.total + delta_or_default minimum_delta) total)
    ]

-- `ShouldUpgradeForMedia`
unfoldable pub should_upgrade_for_media :
    (String → String)
    → (String → Option Score)
    → Installation
    → Fingerprint
    → ℕ
    → Bool
    → ℤ
    → Option Bool
unfolding should_upgrade installation_matches_media
should_upgrade_for_media clean decode existing media total exact delta =
    if not (installation_matches_media clean existing media)
    then some true
    else should_upgrade decode existing total exact delta

-- `NextUpgradeAt`
unfoldable pub next_upgrade_at : Instant → ℕ → Bool → Instant
next_upgrade_at now total exact =
    if exact
    then 0
    else if leb 85 total
    then now + 90 * 24 * hour
    else if leb 60 total
    then now + 30 * 24 * hour
    else now + 7 * 24 * hour

-- `isFallbackProvider`
abbrev pub is_fallback_provider : Service → String → Bool
is_fallback_provider s id = contains s.fallback_order id

-- `nextUpgradeAt`
unfoldable pub next_upgrade_at_of : Service → Instant → ℕ → Bool → String → Instant
unfolding next_upgrade_at
next_upgrade_at_of s now total exact provider_id =
    if is_fallback_provider s provider_id
    then now + 7 * 24 * hour
    else next_upgrade_at now total exact

abbrev pub preferred : Service → List String
preferred s = elim s.preferred_order [ none ↦ s.provider_order | some order ↦ order ]

-- `shouldUpgrade`: a fallback provider's subtitle gives way to a preferred provider's.
unfoldable pub should_upgrade_tiered :
    (String → String)
    → (String → Option Score)
    → Service
    → Installation
    → Fingerprint
    → String
    → ℕ
    → Bool
    → Option Bool
unfolding should_upgrade installation_matches_media
should_upgrade_tiered clean decode s existing media provider_id total exact =
    if not (installation_matches_media clean existing media)
    then some true
    else if is_fallback_provider s existing.provider_id && contains (preferred s) provider_id
    then some true
    else if contains (preferred s) existing.provider_id && is_fallback_provider s provider_id
    then some false
    else should_upgrade decode existing total exact s.minimum_upgrade_delta

-- `cacheProviderAllowed`
abbrev pub cache_provider_allowed : Service → String → Bool
cache_provider_allowed s id =
    if is_empty s.fallback_order then true else contains s.provider_order id

-- `recentRelease`; `aged_after` is the service's `AgedAfter`.
abbrev pub recent_release : Duration → Instant → Instant → Bool
recent_release aged_after released_at at =
    ltb 0 aged_after
    && not (is_zero released_at)
    && not (is_zero at)
    && not (after released_at at)
    && sub_lt at released_at aged_after
