-- ===== src/Packs/MovieVersions.antt =====
-- internal/pack/movie_versions.go: the subtitles of a film's archive that are tried. The words of a
-- file name, which tell bonus material and language tags, are tests that the caller gives, and so is
-- the policy on forced subtitles (`eligibleMembers`) that other selections share.
mod Choices
mod Scenarios
use subsyncd.Common.Text.{String, str_eq}
use subsyncd.Common.{
  Bool, List, Option, ◌∷◌, if◌then◌else◌, none, length, keep, [], any, ℕ, ◌&&◌, not, true, is_empty,
  false, ltb, ◌||◌, some, ◌==◌, map, leb,
}

-- The fields of `Member` that the selection reads or writes.
pub record Member : Type 0 where
  pub safe_name : String
  pub checksum : String
  pub selection_rule : String
  pub selection_evidence : String

-- What a file's name says, and the order in which files are returned.
pub record Names : Type 0 where
  pub is_extra : String → Bool
  pub language_tag : String → Option String
  pub is_multi_disc : String → Bool
  -- `strings.Compare(a, b) <= 0`
  pub before_or_same : String → String → Bool

-- `SelectionError` by its code, with the number of versions.
pub data Selection : Type 0 where
  selected : List Member → Selection
  refused : String → ℕ → Selection

-- `preferWhere`
unfoldable pub prefer_where : (Member → Bool) → List Member → List Member
prefer_where p members = let kept = keep p members in if is_empty kept then members else kept

-- `seen[member.Checksum]`
abbrev seen : List String → String → Bool
seen checksums c = any (str_eq c) checksums

-- The loop that drops a file with the checksum of an earlier one.
unfoldable pub unique_members : List String → List Member → List Member
unique_members checksums [] = []
unique_members checksums (m ∷ ms) =
    let skip = unique_members checksums ms in
    let rest = unique_members (m.checksum ∷ checksums) ms in
    if not (str_eq m.checksum "") && seen checksums m.checksum then skip else m ∷ rest

-- A stable sort by name, which `slices.SortFunc` is on the at most three versions.
insert_member : (String → String → Bool) → Member → List Member → List Member
insert_member le m [] = m ∷ []
insert_member le m (x ∷ xs) =
    let rest = insert_member le m xs in if le m.safe_name x.safe_name then m ∷ x ∷ xs else x ∷ rest

pub sort_members : (String → String → Bool) → List Member → List Member
unfolding insert_member
sort_members le [] = []
sort_members le (m ∷ ms) = insert_member le m (sort_members le ms)

abbrev pub with_rule : String → String → Member → Member
with_rule rule evidence m = record m { selection_rule = rule; selection_evidence = evidence }

abbrev pub as_single : Member → Member
as_single = with_rule "single_movie" "single movie subtitle member satisfies subtitle policy"

abbrev pub as_version : Member → Member
as_version =
    with_rule "movie_versions" "one of up to three movie subtitle versions, ranked by timing"

module _ (names : Names) where
  -- The tests on a file's language tag.
  abbrev pub tagged_as : String → Member → Bool
  tagged_as language m = elim (names.language_tag m.safe_name) [
    | none ↦ false
    | some tag ↦ str_eq tag language
  ]

  abbrev pub not_other : String → Member → Bool
  not_other language m = elim (names.language_tag m.safe_name) [
    | none ↦ true
    | some tag ↦ str_eq tag language
  ]

  -- The versions that are left when files that are no candidates have been set aside.
  pub versions : String → List Member → List Member
  unfolding prefer_where unique_members
  versions language members = unique_members [] (
      prefer_where (not_other language) (
        prefer_where (tagged_as language)
          (prefer_where (λ m. not (names.is_extra m.safe_name)) members)))

  -- The end of `SelectMovieAlternatives`.
  pub choose : Bool → List Member → Selection
  unfolding sort_members
  choose exact_hash unique =
      let n = length unique in
      if any (λ m. names.is_multi_disc m.safe_name) unique
      then refused "single_movie" n
      else if exact_hash && ltb 1 n
      then refused "single_movie" n
      else if n == 1
      then selected (map as_single unique)
      else if leb n 3
      then selected (map as_version (sort_members names.before_or_same unique))
      else refused "single_movie" n

  -- `SelectMovieAlternatives`, from the members that satisfy the policy on forced subtitles.
  unfoldable pub select_movie_alternatives : List Member → String → Bool → Bool → Bool → Selection
  unfolding choose versions
  select_movie_alternatives members language forced exact_hash want_forced =
      if forced && not want_forced || is_empty members
      then refused "forced_policy" 0
      else choose exact_hash (versions language members)
