-- ===== src/Packs/MovieVersions/Scenarios.antt =====
-- An archive with a commentary track and two versions of the film's subtitle.
use subsyncd.Common.Text.{String, str_eq}
use subsyncd.Packs.MovieVersions.{
  select_movie_alternatives, Names, Member, versions, as_version, choose, prefer_where,
  unique_members, sort_members, selected,
}
use subsyncd.Common.{
  List, ◌<◌, length, ◌≤◌, none, ◌∷◌, [], not, false, ◌||◌, ◌≡◌, leb, true, any, refl,
}
use subsyncd.Packs.MovieVersions.Choices.{of_file, select_movie_alternatives_lem}

abbrev by_name : Names
by_name = record {
  is_extra = λ n. str_eq n "commentary.srt";
  language_tag = λ n. none;
  is_multi_disc = λ n. str_eq n "film.cd1.srt";
  before_or_same = λ a b. str_eq a "a.srt";
}

abbrev file : String → String → Member
file name checksum = record {
  safe_name = name;
  checksum = checksum;
  selection_rule = "";
  selection_evidence = "";
}

abbrev archive : List Member
archive = file "commentary.srt" "1" ∷ file "b.srt" "2" ∷ file "a.srt" "3" ∷ file "copy.srt" "2" ∷ []

abbrev versions_found : List Member
versions_found = as_version (file "a.srt" "3") ∷ as_version (file "b.srt" "2") ∷ []

two_selected :
    select_movie_alternatives by_name archive "hr" false false false ≡ selected versions_found
unfolding select_movie_alternatives versions choose prefer_where unique_members sort_members
two_selected = refl

select_movie_alternatives_example :
    (0 < length versions_found)
    × (length versions_found ≤ 3)
    × ((not false || leb (length versions_found) 1) ≡ true)
    × (any (λ m. by_name.is_multi_disc m.safe_name) versions_found ≡ false)
    × (any (of_file (λ name checksum. str_eq name "other.srt")) versions_found ≡ false)
select_movie_alternatives_example =
    select_movie_alternatives_lem by_name archive versions_found "hr" false false false
      (λ name checksum. str_eq name "other.srt") two_selected refl
