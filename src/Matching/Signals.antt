-- ===== src/Matching/Signals.antt =====
-- internal/match/score.go: identities, titles, sources, editions and release groups that agree.
use subsyncd.Matching.Types.{TextOps, ExternalIds, Media, Release}
use subsyncd.Common.{
  List, Bool, ◌∷◌, none, if◌then◌else◌, map, true, not, any, ◌&&◌, [], false, ◌||◌, ◌++◌, some,
}
use subsyncd.Common.Text.{String, str_eq}
use subsyncd.Matching.Coverage.{present, known, eq_ℤ}

-- `equivalentReleaseGroups`
abbrev pub equivalent_release_groups : List (List String)
equivalent_release_groups =
    ("framestor" ∷ "w4nk3r" ∷ "bhdstudio" ∷ [])
    ∷ ("lol" ∷ "dimension" ∷ [])
    ∷ ("asap" ∷ "immerse" ∷ "fleet" ∷ [])
    ∷ ("avs" ∷ "sva" ∷ [])
    ∷ []

-- `variants&wanted == wanted` and `variants == 0`, on sets of labels.
unfoldable pub has_all : List Bool → List Bool → Bool
has_all have [] = true
has_all [] (w ∷ wanted) = let rest = has_all [] wanted in not w && rest
has_all (h ∷ have) (w ∷ wanted) = let rest = has_all have wanted in (not w || h) && rest

abbrev pub no_labels : List Bool → Bool
no_labels = λ labels. not (any (λ l. l) labels)

module _ (tx : TextOps) where
  open tx use {
    normalize_identity, comparable, parse_language, parse_releases, normalize_edition,
    edition_variants, normalize_source, names_remux, is_multi_disc,
  }

  -- `EquivalentLanguage`
  unfoldable pub equivalent_language : String → String → Bool
  equivalent_language a b = elim (parse_language a) [
    | none ↦ false
    | some left ↦ elim (parse_language b) [ none ↦ false | some right ↦ str_eq left right ]
  ]

  unfoldable pub same_text : String → String → Bool
  same_text a b = str_eq (comparable a) (comparable b)

  -- `externalConflicts`
  unfoldable pub external_conflicts : ExternalIds → ExternalIds → List String
  unfolding same_text
  external_conflicts m c =
      (if present m.imdb && present c.imdb && not (same_text m.imdb c.imdb)
        then "candidate IMDb identity conflicts with target" ∷ []
        else [])
      ++ (if known m.tmdb && known c.tmdb && not (eq_ℤ m.tmdb c.tmdb)
          then "candidate TMDB identity conflicts with target" ∷ []
          else [])
      ++ (if known m.tvdb && known c.tvdb && not (eq_ℤ m.tvdb c.tvdb)
          then "candidate TVDB identity conflicts with target" ∷ []
          else [])

  -- `matchingExternalID`
  unfoldable pub matching_external_id : ExternalIds → ExternalIds → Bool
  unfolding same_text
  matching_external_id m c =
      present m.imdb && present c.imdb && same_text m.imdb c.imdb
      || known m.tmdb && known c.tmdb && eq_ℤ m.tmdb c.tmdb
      || known m.tvdb && known c.tvdb && eq_ℤ m.tvdb c.tvdb

  -- `titleMatches`
  unfoldable pub title_matches : Media → String → List String → List Release → Bool
  title_matches m title alternates releases =
      let wanted = map normalize_identity (m.title ∷ m.alternate_titles) in
      let is_wanted = λ (t : String). any (str_eq t) wanted && present t in
      is_wanted (normalize_identity title)
      || any (λ t. is_wanted (normalize_identity t)) alternates
      || any (λ r. is_wanted r.title) releases

  -- `releaseFieldMatches`
  unfoldable pub release_field_matches : List Release → String → (Release → String) → Bool
  release_field_matches releases wanted field =
      let wanted' = comparable wanted in
      if not (present wanted')
      then false
      else any (λ r. str_eq (comparable (field r)) wanted') releases

  -- `mediaSource`
  unfoldable pub media_source : Media → String
  media_source m = if names_remux m.quality then "remux" else normalize_source m.source

  -- `editionMatches`
  unfoldable pub edition_matches : List Release → String → Bool
  unfolding has_all
  edition_matches releases edition =
      let wanted = comparable (normalize_edition edition) in
      let variants = edition_variants edition in
      if present wanted
      then any (λ r. str_eq (comparable r.edition) wanted) releases
      else if no_labels variants
      then false
      else any (λ r. has_all r.variants variants) releases

  -- `releaseGroupMatches`
  unfoldable pub release_group_matches : List Release → String → Bool
  release_group_matches releases wanted =
      let wanted' = comparable wanted in
      let names = λ (g : String). λ (aliases : List String).
        any (λ a. str_eq (comparable a) wanted') aliases
        && any (λ a. str_eq g (comparable a)) aliases in
      let accepted = λ (g : String). str_eq g wanted' || any (names g) equivalent_release_groups in
      if not (present wanted') then false else any (λ r. accepted (comparable r.group)) releases

  -- `TrackCoversLanguage` of internal/domain/language.go
  pub track_covers_language : String → Bool → Bool → String → Bool → Bool
  unfolding equivalent_language
  track_covers_language track forced hearing_impaired want allow_hearing_impaired =
      if not (present track) || forced || not (equivalent_language track want)
      then false
      else not hearing_impaired || allow_hearing_impaired
