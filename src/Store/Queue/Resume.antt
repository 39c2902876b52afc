-- ===== src/Store/Queue/Resume.antt =====
-- The list of providers that a search already asked, kept over its retries
-- (internal/store/repository.go, internal/store/provider_resume.go).
use subsyncd.Common.{
  List, Option, ℕ, ◌∷◌, Bool, some, none, if◌then◌else◌, [], true, false, any, ltb, length,
}
use subsyncd.Common.Text.{String, str_eq}

-- The route of a language as the configuration accepted it: its signature, the length of its
-- providers' JSON, and its providers.
pub record ProviderResumeBound : Type 0 where
  pub signature : String
  pub json_bytes : ℕ
  pub providers : List String

-- The policy of a repository: `WithSearchScope` and `WithProviderResumeRoutes`, both optional.
-- What it calls outside the package is given: `strings.TrimSpace(id) == ""`, the length of a list's
-- JSON, and `ProviderResumeSignature` of a route's signature and the fingerprint of a media row.
pub record Repository : Type 0 where
  pub search_scope : Option (List String × List String)
  pub resume_routes : Option (String → Option ProviderResumeBound)
  pub is_blank : String → Bool
  pub json_length : List String → ℕ
  pub route_signature : String → ℕ → String

-- `WithSearchScope`
unfoldable pub with_search_scope : List String → List String → Repository → Repository
with_search_scope instances languages repo = record repo {
  search_scope = some (instances, languages);
}

-- `WithProviderResumeRoutes`, the map as a function; a route is its signature and its providers.
unfoldable pub with_provider_resume_routes :
    (String → Option (String × List String)) → Repository → Repository
with_provider_resume_routes routes repo = record repo {
  resume_routes = some (λ language. elim (routes language) [
    | none ↦ none
    | some (signature, providers) ↦ some record {
      signature = signature;
      json_bytes = repo.json_length providers;
      providers = providers;
    }
  ]);
}

-- The loop of `validateResumeProviders`, with the providers it has seen.
unfoldable pub validate_from : (String → Bool) → List String → List String → Bool
validate_from is_blank seen [] = true
validate_from is_blank seen (p ∷ ps) =
    let rest = validate_from is_blank (p ∷ seen) ps in
    if is_blank p then false else if any (str_eq p) seen then false else rest

unfoldable pub validate_resume_providers : (String → Bool) → List String → Bool
unfolding validate_from
validate_resume_providers is_blank providers = validate_from is_blank [] providers

-- `decodeResumeProviders` of a column, `none` where its JSON is malformed or null.
unfoldable pub decode_resume_providers :
    (String → Bool) → Option (List String) → Option (List String)
unfolding validate_resume_providers
decode_resume_providers is_blank column = elim column [
  | none ↦ none
  | some providers ↦ if validate_resume_providers is_blank providers then some providers else none
]

-- `encodeResumeProviders`, on the list that its JSON stands for.
unfoldable pub encode_resume_providers : (String → Bool) → List String → Option (List String)
unfolding validate_resume_providers
encode_resume_providers is_blank providers =
    if validate_resume_providers is_blank providers then some providers else none

-- `r.resumeRoutes[language]`, which is missing in a nil map.
unfoldable pub bound_of : Repository → String → Option ProviderResumeBound
bound_of repo language = elim repo.resume_routes [ none ↦ none | some routes ↦ routes language ]

-- The fingerprint is here a function of the id of the media: that it changes between a completion
-- and the next lease, which drops the list, is not modelled.
unfoldable pub current_resume_scope : Repository → String → ℕ → String → Bool
current_resume_scope repo language media_id signature = elim repo.resume_routes [
  | none ↦ true
  | some routes ↦ elim (routes language) [
    | none ↦ false
    | some route ↦ str_eq signature (repo.route_signature route.signature media_id)
  ]
]

unfoldable pub all_in : List String → List String → Bool
all_in providers [] = true
all_in providers (p ∷ ps) =
    let rest = all_in providers ps in if any (str_eq p) providers then rest else false

-- A list with only the last copy of each element.
unfoldable pub distinct : List String → List String
distinct [] = []
distinct (p ∷ ps) = let rest = distinct ps in if any (str_eq p) ps then rest else p ∷ rest

-- `decodeSearchResume`; the keys of the map `bound.providers` are counted once each.
unfoldable pub decode_search_resume :
    Repository → String → Option (List String) → Option (List String)
unfolding bound_of decode_resume_providers all_in distinct
decode_search_resume repo language column = elim (bound_of repo language) [
  | none ↦ decode_resume_providers repo.is_blank column
  | some bound ↦ elim (decode_resume_providers repo.is_blank column) [
    | none ↦ none
    | some providers ↦
        if ltb bound.json_bytes (repo.json_length providers)
        then none
        else if ltb (length (distinct bound.providers)) (length providers)
        then none
        else if all_in bound.providers providers
        then some providers
        else none
  ]
]
