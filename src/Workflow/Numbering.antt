-- ===== src/Workflow/Numbering.antt =====
-- internal/workflow/release_numbering.go: a second search under the numbering of the release, and
-- how its results join those of the search under Arr's. `pack.ReleaseEpisode` is an argument.
mod Merge
mod Scenarios
use subsyncd.Common.{
  ℕ, Bool, Option, List, if◌then◌else◌, ◌∷◌, none, true, some, ◌+◌, suc, false, ◌&&◌, not, [], zero,
  ◌||◌, ◌++◌, keep, any, length,
}
use subsyncd.Common.Text.{String, str_eq}
use subsyncd.Common.Int.{ℤ, pos, ltb_ℤ}
use subsyncd.Workflow.Routes.{ProviderError, unavailable_reset}
use subsyncd.Matching.Coverage.{eq_ℤ}

-- The fields of `domain.Media` that the renumbering reads or writes.
pub record Numbered : Type 0 where
  pub is_episode : Bool
  pub season : ℤ
  pub episode : ℤ
  pub episode_end : ℤ
  pub absolute_episode : ℤ
  pub absolute_episode_end : ℤ

-- `releaseNumberedMedia`; `none` is `(media, false)`.
unfoldable pub release_numbered_media : (Numbered → Option (ℤ × ℤ)) → Numbered → Option Numbered
release_numbered_media release_episode m =
    if not m.is_episode || ltb_ℤ m.episode m.episode_end && ltb_ℤ (pos 0) m.episode
    then none
    else elim (release_episode m) [
      | none ↦ none
      | some (season, episode) ↦ some (record {
        is_episode = m.is_episode;
        season = season;
        episode = episode;
        episode_end = pos 0;
        absolute_episode = pos 0;
        absolute_episode_end = pos 0;
      })
    ]

-- The fields of `domain.Candidate` that the merge reads or writes; `pack_season` is `none` without
-- a pack.
pub record Hit : Type 0 where
  pub provider_id : String
  pub result_id : String
  pub season : ℤ
  pub pack_season : Option ℤ
  pub release_numbered : Bool

-- `candidateMedia`
abbrev pub candidate_media : Numbered → Option Numbered → Hit → Numbered
candidate_media media none c = media
candidate_media media (some release) c = if c.release_numbered then release else media

-- `candidateSeason`
abbrev pub candidate_season : Hit → ℤ
candidate_season c = elim c.pack_season [
  | none ↦ c.season
  | some season ↦ if not (eq_ℤ season (pos 0)) then season else c.season
]

-- `provider.SearchResult`
pub record SearchResult : Type 0 where
  pub candidates : List Hit
  pub errors : String → Option ProviderError
  pub empty_providers : List String

abbrev pub Key : Type 0
Key = String × String

abbrev pub key_of : Hit → Key
key_of c = (c.provider_id, c.result_id)

abbrev pub same_key : Key → Key → Bool
same_key a b = str_eq a.0 b.0 && str_eq a.1 b.1

-- The candidates merged so far, their positions by key, and the providers that found something.
pub record Merged : Type 0 where
  pub hits : List Hit
  pub index : Key → Option ℕ
  pub found : List String

abbrev pub put_index : Key → ℕ → (Key → Option ℕ) → Key → Option ℕ
put_index k position index k' = if same_key k k' then some position else index k'

abbrev pub set_at : {A : Type 0} → List A → ℕ → A → List A
set_at [] i y = []
set_at (x ∷ xs) zero y = y ∷ xs
set_at (x ∷ xs) (suc i) y = x ∷ set_at xs i y

-- The index of the first search's candidates.
unfoldable pub index_from : ℕ → (Key → Option ℕ) → List Hit → Key → Option ℕ
index_from position index [] = index
index_from position index (c ∷ cs) =
    index_from (position + 1) (put_index (key_of c) position index) cs

-- The loop's body for a candidate of the release search.
pub merge_hit : ℤ → ℤ → Merged → Hit → Merged
merge_hit release_season arr_season m hit =
    let c = record hit { release_numbered = true } in
    elim (m.index (key_of hit)) [
      | some position ↦
          if eq_ℤ (candidate_season c) release_season && not (eq_ℤ (candidate_season c) arr_season)
          then record m { hits = set_at m.hits position c; found = c.provider_id ∷ m.found }
          else m
      | none ↦ record {
        hits = m.hits ++ c ∷ [];
        index = put_index (key_of hit) (length m.hits) m.index;
        found = c.provider_id ∷ m.found;
      }
    ]

pub merge_hits : ℤ → ℤ → Merged → List Hit → Merged
unfolding merge_hit
merge_hits release_season arr_season m [] = m
merge_hits release_season arr_season m (c ∷ cs) =
    merge_hits release_season arr_season (merge_hit release_season arr_season m c) cs

-- The errors of both searches: of the second, cooldowns and quotas where the first had none.
pub merge_errors :
    (String → Option ProviderError)
    → (String → Option ProviderError)
    → String
    → Option ProviderError
merge_errors first second id = elim (first id) [
  | some e ↦ some e
  | none ↦ elim (second id) [
    | none ↦ none
    | some e ↦ elim (unavailable_reset e) [ none ↦ none | some reset ↦ some e ]
  ]
]

abbrev pub is_error : Option ProviderError → Bool
is_error none = false
is_error (some e) = true

-- `mergeReleaseNumberedSearch`
unfoldable pub merge_release_numbered_search : SearchResult → SearchResult → ℤ → ℤ → SearchResult
unfolding merge_hits merge_errors index_from
merge_release_numbered_search arr release release_season arr_season =
    let start : Merged = record {
      hits = arr.candidates;
      index = index_from 0 (λ _. none) arr.candidates;
      found = [];
    } in
    let merged = merge_hits release_season arr_season start release.candidates in
    let errors = merge_errors arr.errors release.errors in
    record {
      candidates = merged.hits;
      errors = errors;
      empty_providers =
          keep (λ id. not (any (str_eq id) merged.found) && not (is_error (errors id)))
            arr.empty_providers;
    }
