-- ===== src/Store/Queue/Grants.antt =====
-- How the due searches are leased (internal/store/repository.go, `LeaseDueSearchesExcept`).
use subsyncd.Common.{
  ℕ, Bool, ◌*◌, none, ◌==◌, List, ◌||◌, false, Option, if◌then◌else◌, some, is_empty, ◌+◌, not, [],
  ◌∷◌, ◌&&◌, true,
}
use subsyncd.Common.Time.{Duration, Instant, hour, sub_ge}
use subsyncd.Store.Queue.Resume.{current_resume_scope, Repository, decode_search_resume}
use subsyncd.Store.Queue.Leases.{claim_row}
use subsyncd.Store.Queue.Rows.{
  SearchRow, Media, no_resume, is_row, Outcome, update_where, failed, invalid_argument, lease_free,
  done, count_where, no_job_id,
}
use subsyncd.Store.Queue.Due.{due_searches, PausedRoute}
use subsyncd.Common.Text.{String}

abbrev pub resume_providers_max_age : Duration
resume_providers_max_age = 14 * 24 * hour

pub record SearchLease : Type 0 where
  pub media_id : ℕ
  pub language : String
  pub job_id : String
  pub attempt : ℕ
  pub failure_attempt : ℕ
  pub lease_until : Instant
  pub priority : ℕ
  pub resume_providers : List String
  pub resume_route_signature : String
  pub resume_saved_at : Instant
  pub replace_installed : Bool

-- A list without a date, one that is too old, or one of another route.
unfoldable pub is_stale : Repository → Instant → SearchRow → Bool
unfolding current_resume_scope
is_stale repo now r =
    let expired = r.resume_saved_at == 0 || sub_ge now r.resume_saved_at resume_providers_max_age in
    expired || not (current_resume_scope repo r.language r.media_id r.resume_route_signature)

-- What a due search resumes: its list, its signature and its date, and whether the list is
-- malformed. A stale list is dropped.
unfoldable pub resume_of :
    Repository → Instant → SearchRow → (List String × String × Instant) × Bool
resume_of repo now r =
    let stale = is_stale repo now r in
    elim (decode_search_resume repo r.language (if stale then some [] else r.resume_providers)) [
      | none ↦ (([], "", 0), true)
      | some providers ↦ (
        (
          providers,
          if stale then "" else r.resume_route_signature,
          if stale then 0 else r.resume_saved_at,
        ),
        false,
      )
    ]

unfoldable pub lease_of : Repository → Instant → Instant → String → SearchRow → SearchLease
unfolding resume_of
lease_of repo now until job r =
    let (providers, signature, saved_at) = (resume_of repo now r).0 in
    record {
      media_id = r.media_id;
      language = r.language;
      job_id = job;
      attempt = r.attempt;
      failure_attempt = r.failure_attempt;
      lease_until = until;
      priority = r.priority;
      resume_providers = providers;
      resume_route_signature = signature;
      resume_saved_at = saved_at;
      replace_installed = r.replace_installed;
    }

unfoldable pub reset_resume : SearchRow → SearchRow
reset_resume r = record (no_resume r) { resume_saved_at = 0 }

-- The claim of one selected row, after its malformed list is reset.
unfoldable pub lease_row :
    Repository → Instant → Instant → String → SearchRow → List SearchRow → List SearchRow × Bool
unfolding reset_resume claim_row resume_of
lease_row repo now until job r rows =
    let same = is_row r.media_id r.language in
    let cleaned = if (resume_of repo now r).1 then update_where same reset_resume rows else rows in
    let free = λ (s : SearchRow). same s && lease_free now s in
    (update_where free (claim_row job until) cleaned, count_where free cleaned == 1)

-- The loop over the selected rows; `ids` are the next answers of `randomID`, which fails when they
-- run out.
unfoldable pub lease_rows :
    Repository
    → Instant
    → Instant
    → List String
    → List SearchRow
    → List SearchRow
    → Option (List SearchRow × List SearchLease)
unfolding lease_row lease_of
lease_rows repo now until ids [] rows = some (rows, [])
lease_rows repo now until [] (r ∷ due) rows = none
lease_rows repo now until (job ∷ ids) (r ∷ due) rows =
    let (rows', claimed) = lease_row repo now until job r rows in
    elim (lease_rows repo now until ids due rows') [
      | none ↦ none
      | some (rows'', leases) ↦
          some (rows'', if claimed then lease_of repo now until job r ∷ leases else leases)
    ]

abbrev pub nothing_in_scope : Repository → Bool
nothing_in_scope repo = elim repo.search_scope [
  | none ↦ false
  | some (instances, languages) ↦ is_empty instances || is_empty languages
]

-- `LeaseDueSearchesExcept`; with no paused route it is `LeaseDueSearches`.
unfoldable pub lease_due_searches_except :
    Repository
    → Media
    → List String
    → Instant
    → ℕ
    → Duration
    → List PausedRoute
    → List SearchRow
    → Outcome (List SearchLease)
unfolding lease_rows due_searches
lease_due_searches_except repo media ids now limit duration paused rows =
    let due = due_searches repo media now limit paused rows in
    let leased = lease_rows repo now (now + duration) ids due rows in
    if limit == 0 || duration == 0
    then failed invalid_argument
    else if nothing_in_scope repo
    then done rows []
    else elim leased [ none ↦ failed no_job_id | some (rows', leases) ↦ done rows' leases ]
