-- ===== src/Matching/Score/Scenarios.antt =====
-- Scoring one episode against one candidate, with text operations that take every text as it is.
use subsyncd.Common.{
  true, false, ◌∷◌, [], refl, some, ◌≡◌, ℕ, map, none, min, is_empty, ◌||◌, ◌==◌, not,
}
use subsyncd.Matching.Score.{
  identity_rejections, candidate_releases, contributions, episode_evidence_matches, evaluate,
  eligible, sum_points,
}
use subsyncd.Matching.Signals.{
  title_matches, release_group_matches, release_field_matches, media_source, edition_matches,
}
use subsyncd.Common.Int.{pos}
use subsyncd.Common.Fixed.{fixed_point}
use subsyncd.Matching.Types.{TextOps, Media, Candidate, ExternalIds, empty_release, episode}
use subsyncd.Matching.Score.Rejections.{IsFor, eligible-IsFor}
use subsyncd.Matching.Score.Bounds.{evaluate_total}

abbrev plain : TextOps
plain = record {
  normalize_identity = λ t. t;
  comparable = λ t. t;
  parse_language = λ t. some t;
  parse_releases = λ names. map (λ n. record empty_release { raw = n; title = n }) names;
  normalize_edition = λ t. t;
  edition_variants = λ t. [];
  normalize_source = λ t. t;
  names_remux = λ t. false;
  is_multi_disc = λ t. false;
}

abbrev ids : ExternalIds
ids = record { imdb = "tt0903747"; tmdb = pos 1396; tvdb = pos 81189 }

abbrev target : Media
target = record {
  kind = episode;
  title = "Breaking Bad";
  alternate_titles = [];
  year = pos 2008;
  season = pos 1;
  episode = pos 2;
  absolute_episode = pos 0;
  episode_end = pos 2;
  absolute_episode_end = pos 0;
  external_ids = ids;
  release_group = "lol";
  source = "web";
  resolution = "720p";
  streaming_service = "";
  edition = "";
  quality = "web";
}

abbrev offered : Candidate ℕ
offered = record {
  provider_id = "subdl";
  result_id = "1";
  language = "hr";
  kind = episode;
  title = "Breaking Bad";
  alternate_titles = [];
  year = pos 2008;
  season = pos 1;
  episode = pos 2;
  absolute_episode = pos 0;
  external_ids = ids;
  release_names = "Breaking Bad" ∷ [];
  release_groups = "dimension" ∷ [];
  resolutions = "720p" ∷ [];
  exact_hash = false;
  forced = false;
  rating = 10;
  popularity = 5;
  download_count = pos 12;
  pack = none;
}

-- The group counts as equivalent, and the source is not named.
offered-total : (evaluate plain fixed_point target offered "hr" false).total ≡ 89
unfolding evaluate identity_rejections candidate_releases contributions title_matches
    episode_evidence_matches release_group_matches release_field_matches media_source
    edition_matches
offered-total = refl

evaluate_total_example :
    let s = evaluate plain fixed_point target offered "hr" false in
    (s.total ≡ min (sum_points plain fixed_point s.contributions) 100)
    × ((is_empty s.rejected_reasons || s.total == 0) ≡ true)
    × ((not (is_empty s.rejected_reasons) || not offered.exact_hash || s.total == 100) ≡ true)
evaluate_total_example = evaluate_total plain fixed_point target offered "hr" false

offered-eligible : eligible (evaluate plain fixed_point target offered "hr" false) 60 ≡ true
unfolding evaluate eligible identity_rejections candidate_releases contributions title_matches
    episode_evidence_matches release_group_matches release_field_matches media_source
    edition_matches
offered-eligible = refl

eligible-IsFor_example : IsFor plain fixed_point target offered "hr" false
eligible-IsFor_example =
    eligible-IsFor plain fixed_point target offered "hr" false 60 offered-eligible
