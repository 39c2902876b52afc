-- ===== src/Workflow/Upgrade/Scenarios.antt =====
-- A fallback provider's subtitle, and a preferred provider's that replaces it.
use subsyncd.Common.Text.{String, str_eq, eq_iff}
use subsyncd.Workflow.Upgrade.{
  should_upgrade_tiered, Fingerprint, installation_matches_media, Service, installed_score,
  Installation, contains, should_upgrade, preferred, is_fallback_provider,
}
use subsyncd.Common.Int.{pos}
use subsyncd.Common.{
  ◌∷◌, false, Option, ◌≡◌, true, some, [], refl, none, ◌&&◌, if◌then◌else◌, Bool-cases, inl, subst,
  inr, sym,
}
use subsyncd.Matching.Types.{Score}
use subsyncd.Workflow.Upgrade.Cycles.{should_upgrade_tiered-asym}

abbrev score_of_text : String → Option Score
score_of_text t =
    if str_eq t "sixty"
    then some (record { total = 60; contributions = []; rejected_reasons = [] })
    else none

abbrev tiers : Service
tiers = record {
  provider_order = "subdl" ∷ [];
  preferred_order = none;
  fallback_order = "titlovi" ∷ [];
  minimum_upgrade_delta = pos 0;
}

abbrev installed_by : String → String → Installation
installed_by id score = record {
  provider_id = id;
  score_json = score;
  media_path = "/tv/e.mkv";
  media_file_id = pos 4;
  media_size = pos 99;
  media_mod_time_ns = pos 7;
}

abbrev file : Fingerprint
file = record { path = "/tv/e.mkv"; file_id = pos 4; size = pos 99; mod_time_ns = pos 7 }

tiers_disjoint :
    (id : String) → (contains (preferred tiers) id && is_fallback_provider tiers id) ≡ false
tiers_disjoint id = elim (Bool-cases (str_eq id "subdl")) [
  | inl y ↦
      subst (λ (t : String). (contains (preferred tiers) t && is_fallback_provider tiers t) ≡ false)
        (sym ((eq_iff id "subdl").0 y)) refl
  | inr n ↦ rw n refl
]

promoted :
    should_upgrade_tiered
      (λ p. p)
      score_of_text
      tiers
      (installed_by "titlovi" "sixty")
      file
      "subdl"
      0
      false
    ≡ some true
unfolding should_upgrade_tiered installation_matches_media should_upgrade installed_score
promoted = refl

matches :
    (id score : String) → installation_matches_media (λ p. p) (installed_by id score) file ≡ true
unfolding installation_matches_media
matches id score = refl

scored :
    installed_score score_of_text (installed_by "titlovi" "sixty")
    ≡ some (record { total = 60; contributions = []; rejected_reasons = [] }, false)
unfolding installed_score
scored = refl

unscored :
    installed_score score_of_text (installed_by "subdl" "{}")
    ≡ some (record { total = 0; contributions = []; rejected_reasons = [] }, false)
unfolding installed_score
unscored = refl

should_upgrade_tiered-asym_example :
    should_upgrade_tiered
      (λ p. p)
      score_of_text
      tiers
      (installed_by "subdl" "{}")
      file
      "titlovi"
      60
      false
    ≡ some false
should_upgrade_tiered-asym_example =
    should_upgrade_tiered-asym (λ p. p) score_of_text tiers (installed_by "titlovi" "sixty")
      (installed_by "subdl" "{}") file
      (record { total = 60; contributions = []; rejected_reasons = [] }, false)
      (record { total = 0; contributions = []; rejected_reasons = [] }, false) tiers_disjoint
      (matches "titlovi" "sixty") (matches "subdl" "{}") scored unscored promoted
