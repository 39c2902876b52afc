-- ===== src/Store/Queue/Owners.antt =====
-- A job that holds no lease completes, renews and releases nothing (internal/store/repository.go,
-- internal/store/lease_release.go).
use mathlib.Core.Bool.{true≢false}
use subsyncd.Common.{
  List, Bool, ◌≡◌, any, false, refl, Bool-cases, ◌∷◌, not, inl, true, some, inr, ◌==◌, none, ◌||◌,
  subst, ◌&&◌, if◌then◌else◌, [], sym, Option-cases, ◌+◌,
}
use subsyncd.Store.Queue.Completion.{
  complete_search, complete_row, complete_deleted_row, rerun_row, finish_row, SearchCompletion,
  Resume, SearchCompletionResult, held_search, preserved_resume, is_deleted,
}
use subsyncd.Store.Queue.Rows.{
  SearchRow, Media, Outcome, owned_by, done, failed, find_where, update_where, QueueError,
  invalid_argument, valid_search_priority, lease_not_found, release_row, count_where,
}
use subsyncd.Store.Queue.Resume.{Repository}
use subsyncd.Common.Time.{Instant, Duration}
use subsyncd.Common.Text.{String, str_eq, eq_iff}
use subsyncd.Store.Queue.History.{rows_after}
use subsyncd.Store.Queue.Counts.{update_where-unmet, any-count_where}
use subsyncd.Store.Queue.Leases.{renew_search_lease, release_search_lease, renew_row}

no_owned :
    (media : Media) (job : String) (rows : List SearchRow)
    → any (owned_by job) rows ≡ false
    → find_where (held_search media job) rows ≡ none
no_owned media job [] h = refl
no_owned media job (r ∷ rows) h = elim (Bool-cases (owned_by job r)) [
  | inl y ↦
      absurd (true≢false (subst (λ b. (if b then true else any (owned_by job) rows) ≡ false) y h))
  | inr n ↦
      rw
        (
          n,
          no_owned media job rows
              (subst (λ b. (if b then true else any (owned_by job) rows) ≡ false) n h),
        )
        refl
]

complete-refused :
    (repo : Repository) (media : Media) (clock : Instant) (c : SearchCompletion)
    (rows : List SearchRow)
    → any (owned_by c.job_id) rows ≡ false
    → (e : QueueError) × (complete_search repo media clock c rows ≡ failed e)
unfolding complete_search
complete-refused repo media clock c rows h =
    elim (Bool-cases (not (c.priority == 0) && not (valid_search_priority c.priority))) [
      | inl y ↦ (invalid_argument, rw y refl)
      | inr n ↦ (lease_not_found, rw (n, no_owned media c.job_id rows h) refl)
    ]

renew-refused :
    (job : String) (now : Instant) (duration : Duration) (rows : List SearchRow)
    → any (owned_by job) rows ≡ false
    → (e : QueueError) × (renew_search_lease job now duration rows ≡ (rows, some e))
unfolding renew_search_lease
renew-refused job now duration rows h = elim (Bool-cases (str_eq job "" || duration == 0)) [
  | inl y ↦ (invalid_argument, rw y refl)
  | inr n ↦ (
    lease_not_found,
    rw
        (
          n,
          update_where-unmet (owned_by job) (renew_row (now + duration)) rows h,
          any-count_where (owned_by job) rows h,
        )
        refl,
  )
]

release-refused :
    (job : String) (rows : List SearchRow)
    → any (owned_by job) rows ≡ false
    → rows_after rows (release_search_lease job rows) ≡ rows
unfolding release_search_lease
release-refused job rows h = elim (Bool-cases (str_eq job "")) [
  | inl y ↦ rw y refl
  | inr n ↦ rw (n, update_where-unmet (owned_by job) release_row rows h) refl
]

-- The row that an update makes is not owned.
released :
    (p : SearchRow → Bool) (f : SearchRow → SearchRow) (rows : List SearchRow)
    → ((r : SearchRow) → p (f r) ≡ false)
    → any p (update_where p f rows) ≡ false
released p f [] h = refl
released p f (r ∷ rows) h = elim (Bool-cases (p r)) [
  | inl y ↦ rw (y, h r, released p f rows h) refl
  | inr n ↦ rw (n, n, released p f rows h) refl
]

complete_row-released :
    (job : String) (c : SearchCompletion) (resume : Resume) (r : SearchRow)
    → owned_by job (complete_row c resume r) ≡ false
unfolding complete_row rerun_row finish_row
complete_row-released job c resume r = elim (Bool-cases r.rerun_requested) [
  | inl y ↦ rw y refl
  | inr n ↦ rw n refl
]

deleted_row-released :
    (job : String) (r : SearchRow) → owned_by job (complete_deleted_row r) ≡ false
unfolding complete_deleted_row
deleted_row-released job r = refl

-- The table after a call that succeeds passes a test.
abbrev IfDone : {A : Type 0} → (List SearchRow → Type 0) → Outcome A → Type 0
IfDone P (done rows _) = P rows
IfDone P (failed _) = Unit {0}

complete-released :
    (repo : Repository) (media : Media) (clock : Instant) (c : SearchCompletion)
    (rows : List SearchRow)
    → IfDone
        (λ rows'. any (owned_by c.job_id) rows' ≡ false)
        (complete_search repo media clock c rows)
unfolding complete_search
complete-released repo media clock c rows =
    elim (Bool-cases (not (c.priority == 0) && not (valid_search_priority c.priority))) [
      | inl y ↦ rw y tt
      | inr v ↦ elim (Option-cases (find_where (held_search media c.job_id) rows)) [
        | inl e ↦ rw (v, e) tt
        | inr (r, e) ↦ elim (Option-cases (preserved_resume repo clock c (is_deleted media r) r)) [
          | inl p ↦ rw (v, e, p) tt
          | inr (resume, p) ↦ elim (Bool-cases (count_where (owned_by c.job_id) rows == 1)) [
            | inr n ↦ rw (v, e, p, n) tt
            | inl o ↦ elim (Bool-cases (is_deleted media r)) [
              | inl d ↦
                  rw (v, e, p, o, d)
                    (released (owned_by c.job_id) complete_deleted_row rows
                      (deleted_row-released c.job_id))
              | inr a ↦
                  rw (v, e, p, o, a)
                    (released (owned_by c.job_id) (complete_row c resume) rows
                      (complete_row-released c.job_id c resume))
            ]
          ]
        ]
      ]
    ]

-- A completed search is no longer leased: right after a completion that succeeded, another
-- completion for its job, whatever it says, and a renewal are errors that change no row, and a
-- release for it changes none.
pub complete_search-once :
    (repo : Repository) (media : Media) (clock : Instant) (c : SearchCompletion)
    (rows rows' : List SearchRow) (result : SearchCompletionResult) (later : Instant)
    (c' : SearchCompletion) (now : Instant) (duration : Duration)
    → complete_search repo media clock c rows ≡ done rows' result
    → str_eq c'.job_id c.job_id ≡ true
    → ((e : QueueError) × (complete_search repo media later c' rows' ≡ failed e))
      × ((e : QueueError) × (renew_search_lease c.job_id now duration rows' ≡ (rows', some e)))
      × (rows_after rows' (release_search_lease c.job_id rows') ≡ rows')
complete_search-once repo media clock c rows rows' result later c' now duration h same =
    let free : any (owned_by c.job_id) rows' ≡ false =
      subst (IfDone (λ x. any (owned_by c.job_id) x ≡ false)) h
        (complete-released repo media clock c rows) in
    let job = (eq_iff c'.job_id c.job_id).0 same in
    (
      complete-refused repo media later c' rows'
          (subst (λ j. any (owned_by j) rows' ≡ false) (sym job) free),
      renew-refused c.job_id now duration rows' free,
      release-refused c.job_id rows' free,
    )
