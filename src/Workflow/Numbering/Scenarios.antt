-- ===== src/Workflow/Numbering/Scenarios.antt =====
-- One result of each search, and one of both that names the release's season.
use subsyncd.Workflow.Numbering.{
  SearchResult, merge_release_numbered_search, merge_hits, Hit, merge_hit, index_from,
}
use subsyncd.Common.{ℕ, ◌∷◌, [], ◌≡◌, if◌then◌else◌, none, false, ◌++◌, map, some, true, refl}
use subsyncd.Common.Text.{String, str_eq}
use subsyncd.Common.Int.{pos}
use subsyncd.Workflow.Numbering.Merge.{keys, merge_release_numbered_search-keys, fresh_keys}
use subsyncd.Workflow.Routes.{cooldown}

abbrev hit : String → String → ℕ → Hit
hit id result season = record {
  provider_id = id;
  result_id = result;
  season = pos season;
  pack_season = none;
  release_numbered = false;
}

abbrev arr_search : SearchResult
arr_search = record {
  candidates = hit "subdl" "7" 1 ∷ hit "subdl" "8" 2 ∷ [];
  errors = λ _. none;
  empty_providers = "titlovi" ∷ [];
}

abbrev release_search : SearchResult
release_search = record {
  candidates = hit "subdl" "8" 2 ∷ hit "titlovi" "3" 2 ∷ [];
  errors = λ id. if str_eq id "gestdown" then some (cooldown 5) else none;
  empty_providers = [];
}

abbrev merged : SearchResult
merged = merge_release_numbered_search arr_search release_search (pos 2) (pos 1)

merged_candidates :
    map (λ (c : Hit). c.release_numbered) merged.candidates ≡ false ∷ true ∷ true ∷ []
unfolding merge_release_numbered_search merge_hits merge_hit index_from
merged_candidates = refl

merge_release_numbered_search-keys_example :
    keys merged.candidates
    ≡ keys arr_search.candidates
      ++ fresh_keys (keys arr_search.candidates) (keys release_search.candidates)
merge_release_numbered_search-keys_example =
    merge_release_numbered_search-keys arr_search release_search (pos 2) (pos 1)
