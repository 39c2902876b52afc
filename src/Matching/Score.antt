-- ===== src/Matching/Score.antt =====
-- internal/match/score.go: the reasons to reject a candidate, and its points. The sentence that a
-- contribution carries for people is left out.
mod Bounds
mod Rejections
mod Scenarios
use subsyncd.Matching.Types.{
  TextOps, Score, Release, Media, Candidate, Contribution, empty_release, is_episode_range,
  is_episode, movie, unspecified,
}
use subsyncd.Common.{
  List, ℕ, Bool, if◌then◌else◌, ltb, [], ◌++◌, ◌∷◌, any, ◌+◌, min, ◌&&◌, not, leb, map, ◌||◌, false,
  true,
}
use subsyncd.Common.Float.{Floats}
use subsyncd.Matching.Signals.{
  external_conflicts, matching_external_id, equivalent_language, title_matches,
  release_group_matches, release_field_matches, media_source, edition_matches, no_labels,
}
use subsyncd.Matching.Coverage.{
  episode_in_target, release_has_episode, covers_target, bool_points, known, pack_season_conflicts,
  present, pack_contains, eq_ℤ, same_kind, positive,
}
use subsyncd.Common.Int.{ℤ, pos_part, neg_part}
use subsyncd.Common.Text.{String, str_eq}

module _ (tx : TextOps) where
  open tx use {comparable, parse_releases, normalize_edition, is_multi_disc}

  -- A known edition among the releases, and one that is the file's.
  edition_known : List Release → Bool
  edition_known releases = any (λ r. present r.edition) releases

  edition_matched : List Release → String → Bool
  edition_matched releases wanted =
      any (λ r. present r.edition && str_eq (comparable r.edition) wanted) releases

  module _ (fl : Floats) where
    open fl use {F, of_ℕ, mul, lt, round}

    -- `candidateReleases`
    unfoldable pub candidate_releases : Candidate F → List Release
    candidate_releases c =
        parse_releases c.release_names
        ++ map (λ g. record empty_release { group = g }) c.release_groups
        ++ map (λ r. record empty_release { resolution = r }) c.resolutions

    -- The season and episode part of `identityRejections`, where no pack decides.
    episode_rejections : Media → Candidate F → Bool → List String
    unfolding episode_in_target
    episode_rejections m c selected =
        (if known c.season && not (eq_ℤ c.season m.season)
          then "candidate season conflicts with target" ∷ []
          else [])
        ++ (if not selected
              && known c.episode
              && not (episode_in_target m c.episode)
              && not (eq_ℤ c.episode m.absolute_episode)
            then "candidate episode conflicts with target" ∷ []
            else [])

    -- `abs(media.Year-candidate.Year) > 1`
    abbrev years_differ : ℤ → ℤ → Bool
    years_differ a b =
        ltb (pos_part a + neg_part b + 1) (pos_part b + neg_part a)
        || ltb (pos_part b + neg_part a + 1) (pos_part a + neg_part b)

    numbering_rejections : Media → Candidate F → Bool → List String
    unfolding episode_rejections matching_external_id pack_season_conflicts pack_contains
    numbering_rejections m c selected =
        if same_kind m.kind movie
        then (if known m.year
              && known c.year
              && years_differ m.year c.year
              && not (matching_external_id tx m.external_ids c.external_ids)
            then "candidate movie year differs by more than one" ∷ []
            else [])
        else if pack_season_conflicts c.pack m
        then "candidate pack season conflicts with target" ∷ []
        else if not (pack_contains c.pack m)
        then episode_rejections m c selected
        else []

    edition_rejections : Media → Candidate F → List Release → List String
    unfolding edition_known edition_matched
    edition_rejections m c releases =
        let wanted = comparable (normalize_edition m.edition) in
        if present wanted
          && not c.exact_hash
          && edition_known releases
          && not (edition_matched releases wanted)
        then "candidate edition conflicts with target" ∷ []
        else []

    -- The reasons of `identityRejections` that one test decides, in its order.
    pub language_rejections : Candidate F → String → List String
    language_rejections c requested =
        if not (equivalent_language tx c.language requested)
        then "candidate language conflicts with requested language" ∷ []
        else []

    pub kind_rejections : Media → Candidate F → List String
    kind_rejections m c =
        if not (same_kind c.kind unspecified) && not (same_kind c.kind m.kind)
        then "candidate media kind conflicts with target" ∷ []
        else []

    pub forced_rejections : Candidate F → List String
    forced_rejections c =
        if c.forced
        then "forced-only candidate does not satisfy a full-language request" ∷ []
        else []

    pub range_rejections : Media → Candidate F → List Release → Bool → List String
    range_rejections m c releases selected =
        if is_episode_range m
          && not c.exact_hash
          && not selected
          && not (covers_target m c.exact_hash c.pack releases)
        then "candidate episode range does not cover target" ∷ []
        else []

    pub disc_rejections : Candidate F → List Release → List String
    disc_rejections c releases =
        if not c.exact_hash && any (λ r. is_multi_disc r.raw) releases
        then "candidate is one disc of a multi-disc release" ∷ []
        else []

    -- `identityRejections`
    unfoldable pub identity_rejections :
        Media → Candidate F → String → List Release → Bool → List String
    unfolding language_rejections kind_rejections forced_rejections range_rejections disc_rejections
        numbering_rejections edition_rejections external_conflicts covers_target equivalent_language
        is_episode_range
    identity_rejections m c requested releases selected =
        language_rejections c requested
        ++ kind_rejections m c
        ++ forced_rejections c
        ++ external_conflicts tx m.external_ids c.external_ids
        ++ numbering_rejections m c selected
        ++ range_rejections m c releases selected
        ++ edition_rejections m c releases
        ++ disc_rejections c releases

    -- `episodeEvidenceMatches`
    unfoldable pub episode_evidence_matches : Media → Candidate F → List Release → Bool
    unfolding release_has_episode covers_target pack_contains is_episode_range
    episode_evidence_matches m c releases =
        if not (is_episode m.kind)
        then false
        else if is_episode_range m
        then covers_target m c.exact_hash c.pack releases
        else eq_ℤ c.season m.season
            && eq_ℤ c.episode m.episode
            && positive m.season
            && positive m.episode
          || positive m.absolute_episode && eq_ℤ c.absolute_episode m.absolute_episode
          || pack_contains c.pack m
          || any (release_has_episode m) releases

    -- `clamp`
    abbrev clamp : F → F
    clamp v = if lt v (of_ℕ 0) then of_ℕ 0 else if lt (of_ℕ 1) v then of_ℕ 1 else v

    year_matches : Media → Candidate F → List Release → Bool
    year_matches m c releases =
        known c.year && known m.year && eq_ℤ c.year m.year
        || any (λ r. known r.year && eq_ℤ r.year m.year) releases

    -- The `contributions` of `evaluate`, in its order.
    pub contributions : Media → Candidate F → List Release → Bool → List Contribution
    unfolding year_matches
    contributions m c releases selected =
        record {
          signal = "external_id";
          points = bool_points (matching_external_id tx m.external_ids c.external_ids) 20;
        }
        ∷ record {
          signal = "title_year";
          points =
              bool_points
                (title_matches tx m c.title c.alternate_titles releases
                  && year_matches m c releases)
                15;
        }
        ∷ record {
          signal = "episode";
          points = bool_points (selected || episode_evidence_matches m c releases) 20;
        }
        ∷ record {
          signal = "release_group";
          points = bool_points (release_group_matches tx releases m.release_group) 25;
        }
        ∷ record {
          signal = "source";
          points =
              bool_points (release_field_matches tx releases (media_source tx m) (λ r. r.source))
                15;
        }
        ∷ record {
          signal = "edition";
          points = bool_points (edition_matches tx releases m.edition) 10;
        }
        ∷ record {
          signal = "streaming_service";
          points =
              bool_points (release_field_matches tx releases m.streaming_service (λ r. r.service))
                5;
        }
        ∷ record {
          signal = "resolution";
          points =
              bool_points (release_field_matches tx releases m.resolution (λ r. r.resolution)) 5;
        }
        ∷ record { signal = "provider_rating"; points = round (mul (clamp c.rating) (of_ℕ 3)) }
        ∷ record { signal = "popularity"; points = round (mul (clamp c.popularity) (of_ℕ 2)) }
        ∷ []

    abbrev pub sum_points : List Contribution → ℕ
    sum_points [] = 0
    sum_points (k ∷ ks) = k.points + sum_points ks

    pub score_of : Candidate F → List String → List Contribution → Score
    score_of c (reason ∷ reasons) points = record {
      total = 0;
      contributions = [];
      rejected_reasons = reason ∷ reasons;
    }
    score_of c [] points =
        if c.exact_hash
        then record {
          total = 100;
          contributions = record { signal = "exact_hash"; points = 100 } ∷ [];
          rejected_reasons = [];
        }
        else record {
          total = min (sum_points points) 100;
          contributions = points;
          rejected_reasons = [];
        }

    -- `evaluate`
    unfoldable pub evaluate : Media → Candidate F → String → Bool → Score
    unfolding score_of
    evaluate m c requested selected =
        let releases = candidate_releases c in
        score_of c (identity_rejections m c requested releases selected)
          (contributions m c releases selected)

    -- `EvaluateSelectedPackMember`
    unfoldable pub evaluate_selected_pack_member : Media → Candidate F → String → Score
    unfolding evaluate
    evaluate_selected_pack_member m c requested =
        if not (is_episode m.kind) || c.exact_hash
        then evaluate m c requested false
        else evaluate m c requested true

-- `Eligible`
unfoldable pub eligible : Score → ℕ → Bool
eligible score minimum = elim score.rejected_reasons [ [] ↦ leb minimum score.total | _ ↦ false ]

module _ (tx : TextOps) (fl : Floats) where
  open fl use {F}

  -- `HasEpisodeEvidence`
  pub has_episode_evidence : Media → Candidate F → Bool
  unfolding candidate_releases episode_evidence_matches
  has_episode_evidence m c = episode_evidence_matches tx fl m c (candidate_releases tx fl c)

  -- `HasMatchingEdition`
  pub has_matching_edition : Media → Candidate F → Bool
  unfolding candidate_releases edition_matches
  has_matching_edition m c =
      not (present (tx.normalize_edition m.edition)) && no_labels (tx.edition_variants m.edition)
      || edition_matches tx (candidate_releases tx fl c) m.edition
