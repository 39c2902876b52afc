-- ===== src/Matching/Types.antt =====
-- The media file, the candidate and the parsed release that scoring compares
-- (internal/domain/media.go, candidate.go, score.go; internal/match/release.go). Fields that scoring
-- does not read are left out. A number that is 0 is unknown.
use subsyncd.Common.{Bool, ℕ, true, Option, List, [], false, ◌&&◌}
use subsyncd.Common.Int.{ℤ, pos, ltb_ℤ}
use subsyncd.Common.Text.{String}

pub data MediaKind : Type 0 where
  movie episode unspecified : MediaKind

pub data PackScope : Type 0 where
  pack_season pack_range other_scope : PackScope

pub record ExternalIds : Type 0 where
  pub imdb : String
  pub tmdb : ℤ
  pub tvdb : ℤ

pub record PackInfo : Type 0 where
  pub scope : PackScope
  pub season : ℤ
  pub episode_from : ℤ
  pub episode_to : ℤ
  pub absolute_episode_from : ℤ
  pub absolute_episode_to : ℤ

pub record Media : Type 0 where
  pub kind : MediaKind
  pub title : String
  pub alternate_titles : List String
  pub year : ℤ
  pub season : ℤ
  pub episode : ℤ
  pub absolute_episode : ℤ
  pub episode_end : ℤ
  pub absolute_episode_end : ℤ
  pub external_ids : ExternalIds
  pub release_group : String
  pub source : String
  pub resolution : String
  pub streaming_service : String
  pub edition : String
  pub quality : String

-- `F` is the type of `float64`.
pub record Candidate (F : Type 0) : Type 0 where
  pub provider_id : String
  pub result_id : String
  pub language : String
  pub kind : MediaKind
  pub title : String
  pub alternate_titles : List String
  pub year : ℤ
  pub season : ℤ
  pub episode : ℤ
  pub absolute_episode : ℤ
  pub external_ids : ExternalIds
  pub release_names : List String
  pub release_groups : List String
  pub resolutions : List String
  pub exact_hash : Bool
  pub forced : Bool
  pub rating : F
  pub popularity : F
  pub download_count : ℤ
  pub pack : Option PackInfo

pub record Release : Type 0 where
  pub raw : String
  pub title : String
  pub year : ℤ
  pub season : ℤ
  pub episode : ℤ
  pub episode_end : ℤ
  pub absolute_episode : ℤ
  pub absolute_episode_end : ℤ
  pub group : String
  pub source : String
  pub edition : String
  -- The set of picture labels, a label at each place.
  pub variants : List Bool
  pub service : String
  pub resolution : String

-- `Release{Group: group}` and `Release{Resolution: resolution}` are this with one field set.
abbrev pub empty_release : Release
empty_release = record {
  raw = "";
  title = "";
  year = pos 0;
  season = pos 0;
  episode = pos 0;
  episode_end = pos 0;
  absolute_episode = pos 0;
  absolute_episode_end = pos 0;
  group = "";
  source = "";
  edition = "";
  variants = [];
  service = "";
  resolution = "";
}

pub record Contribution : Type 0 where
  pub signal : String
  pub points : ℕ

pub record Score : Type 0 where
  pub total : ℕ
  pub contributions : List Contribution
  pub rejected_reasons : List String

-- `Kind == MediaEpisode`
abbrev pub is_episode : MediaKind → Bool
is_episode episode = true
is_episode _ = false

-- `IsEpisodeRange`
unfoldable pub is_episode_range : Media → Bool
is_episode_range m = is_episode m.kind && ltb_ℤ m.episode m.episode_end && ltb_ℤ (pos 0) m.episode

-- What scoring asks of the text of names: release.go's parser and normalisers, the parser of BCP 47
-- tags behind `EquivalentLanguage`, and the pattern of disc markers.
pub record TextOps : Type 0 where
  -- `NormalizeIdentity` and `comparable`
  pub normalize_identity : String → String
  pub comparable : String → String
  -- `ParseLanguage`, with `none` for an error.
  pub parse_language : String → Option String
  -- `parseReleases`
  pub parse_releases : List String → List Release
  -- `normalizeEdition(edition, "", false, false)` and `editionVariants`
  pub normalize_edition : String → String
  pub edition_variants : String → List Bool
  -- `mediaSource`'s `normalizeSource(source, "")`, and its test of the quality's name.
  pub normalize_source : String → String
  pub names_remux : String → Bool
  -- `multiDiscLabel.MatchString`
  pub is_multi_disc : String → Bool
