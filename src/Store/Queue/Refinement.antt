-- ===== src/Store/Queue/Refinement.antt =====
-- The leases in the table of searches (internal/store/search_claim.go, lease_release.go,
-- repository.go) refine the locks.
use mathlib.Core.Path.{fun_ext}
use subsyncd.Common.{
  Bool, List, ◌≡◌, if◌then◌else◌, none, true, false, refl, ℕ, Bool-cases, any, inl, ◌&&◌, inr, ap,
  ◌∙◌, subst, ◌||◌, ◌==◌, ◌+◌, ◌∷◌, [], ==_iff, some, and_left, and_right,
}
use subsyncd.Store.Queue.Rows.{
  SearchRow, upsert, is_row, QueueOrder, owned_by, release_row, valid_search_priority, new_row,
  Outcome, done, failed, unsupported_multi_episode,
}
use subsyncd.Store.Queue.Lock.{
  table_step, lock, lock_step, locks_of, lock_of, drop_lock, extend_lock, queue_again, owns,
  extended, table_run, lapsed, LockCall, take_lock, lock_run, set_lock, claim_answer,
}
use subsyncd.Store.Queue.Shape.{KeepsKey, all_rows, shaped, IsTable}
use subsyncd.Common.Text.{String, str_eq, eq_iff}
use subsyncd.Store.Queue.LockRows.{
  lock-update_where, find-append-other, find-append, any-find, release-lock, renew-lock,
}
use subsyncd.Store.Queue.Changes.{
  schedule_media_search, schedule_row, schedule_unsupported_row, complete_new,
}
use subsyncd.Common.Time.{Instant, Duration}
use subsyncd.Store.Queue.Counts.{key_eq}
use subsyncd.Store.Queue.Keeps.{schedule_row-key, renew_row-key, schedule_unsupported_row-key}
use subsyncd.Store.Queue.LockClaims.{after_claim, claim-answer, claim-other, claim-own}
use subsyncd.Store.Queue.History.{rows_after}
use subsyncd.Store.Queue.Leases.{claim_search, renew_search_lease, release_search_lease, renew_row}
use subsyncd.Store.Queue.TableLeases.{claim-IsTable, renew-IsTable, release-IsTable}
use subsyncd.Store.Queue.TableChanges.{schedule-IsTable}

extend-locks :
    (job : String) (now : Instant) (duration : Duration) (rows : List SearchRow)
    → IsTable rows
    → locks_of (table_step (extend_lock job now duration) rows).0
      ≡ (lock_step (extend_lock job now duration) (locks_of rows)).0
unfolding table_step lock_step renew_search_lease
extend-locks job now duration rows (h, u) = elim (Bool-cases (str_eq job "" || duration == 0)) [
  | inl y ↦ rw y refl
  | inr n ↦ rw n (
      fun_ext (λ id. fun_ext (λ language.
        lock-update_where id language (owned_by job) (renew_row (now + duration))
          (extended job (now + duration)) (renew_row-key (now + duration)) refl
          (λ r g _. renew-lock job (now + duration) r g) rows h)))
]

drop-locks :
    (job : String) (rows : List SearchRow)
    → IsTable rows
    → locks_of (table_step (drop_lock job) rows).0 ≡ (lock_step (drop_lock job) (locks_of rows)).0
unfolding table_step lock_step release_search_lease
drop-locks job rows (h, u) = elim (Bool-cases (str_eq job "")) [
  | inl y ↦ rw y refl
  | inr n ↦ rw n (
      fun_ext (λ id. fun_ext (λ language.
        lock-update_where id language (owned_by job) release_row
          (λ l. if owns job l then none else l) (λ r. (refl, refl)) refl
          (λ r g _. release-lock job r g) rows h)))
]

either :
    (b : Bool) (r : SearchRow) (f : SearchRow → SearchRow)
    → lock (f r) ≡ lock r
    → lock (if b then f r else r) ≡ lock r
either true r f same = same
either false r f same = refl

moved :
    (new : SearchRow) (rows : List SearchRow)
    → {id : ℕ} → {language : String} → (new.media_id ≡ id) × (new.language ≡ language)
    → any (is_row new.media_id new.language) rows ≡ false
    → any (is_row id language) rows ≡ false
moved new rows {id} {language} (i, l) n =
    subst (λ x. any (is_row x language) rows ≡ false) i
      (subst (λ x. any (is_row new.media_id x) rows ≡ false) l n)

-- An insert of a row that is not leased, or an update that leaves the columns of the lease.
upsert-locks :
    (new : SearchRow) (f : SearchRow → SearchRow) (rows : List SearchRow)
    → lock new ≡ none
    → KeepsKey f
    → ((r : SearchRow) → lock (f r) ≡ lock r)
    → all_rows shaped rows ≡ true
    → (id : ℕ) (language : String)
    → locks_of (upsert new (λ _. true) f rows) id language ≡ locks_of rows id language
upsert-locks new f rows free key same h id language =
    elim (Bool-cases (any (is_row new.media_id new.language) rows)) [
      | inl y ↦ rw y (
          lock-update_where id language (λ r. is_row new.media_id new.language r && true) f (λ l. l)
            key refl (λ r _ _. either (is_row new.media_id new.language r && true) r f (same r))
            rows h)
      | inr n ↦ rw n (elim (Bool-cases (is_row id language new)) [
        | inr d ↦ ap lock_of (find-append-other (is_row id language) rows new d)
        | inl k ↦
            let gone : any (is_row id language) rows ≡ false =
              moved new rows (key_eq id language new k) n in
            ap lock_of (find-append (is_row id language) rows new gone)
            ∙ rw (k, any-find (is_row id language) rows gone) free
      ])
    ]

again-locks :
    (o : QueueOrder) (id : ℕ) (language : String) (at : Instant) (priority : ℕ)
    (unsupported : String) (rows : List SearchRow)
    → IsTable rows
    → locks_of (table_step (queue_again o id language at priority unsupported) rows).0
      ≡ locks_of rows
unfolding table_step schedule_media_search schedule_row schedule_unsupported_row
again-locks o id language at priority unsupported rows (h, u) =
    elim (Bool-cases (valid_search_priority priority)) [
      | inr n ↦ rw n refl
      | inl v ↦ elim (Bool-cases (str_eq unsupported "")) [
        | inl e ↦
            rw (v, e)
              (fun_ext (λ id'. fun_ext (λ language'.
                upsert-locks (new_row o id language at priority) (schedule_row at priority) rows
                  refl (schedule_row-key at priority) (λ r. refl) h id' language')))
        | inr d ↦ elim (Bool-cases (str_eq unsupported unsupported_multi_episode)) [
          | inr m ↦ rw (v, d, m) refl
          | inl k ↦
              rw (v, d, k)
                (fun_ext (λ id'. fun_ext (λ language'.
                  upsert-locks (complete_new unsupported (new_row o id language at priority))
                    (schedule_unsupported_row at priority unsupported) rows refl
                    (schedule_unsupported_row-key at priority unsupported) (λ r. refl) h id'
                    language')))
        ]
      ]
    ]

taken-lock :
    (o : QueueOrder) (id : ℕ) (language job : String) (now : Instant) (lease : Duration)
    (rows : List SearchRow)
    → all_rows shaped rows ≡ true
    → (lapsed now (locks_of rows id language) || owns job (locks_of rows id language)) ≡ true
    → (id' : ℕ) (language' : String)
    → locks_of (after_claim o id language job now lease rows) id' language'
      ≡ set_lock id language (some (job, now + lease)) (locks_of rows) id' language'
taken-lock o id language job now lease rows h c id' language' =
    elim (Bool-cases (id == id' && str_eq language language')) [
      | inr d ↦ rw d (claim-other o id language job now lease rows id' language' h d)
      | inl y ↦
          let i : id ≡ id' =
            (==_iff id id').0 (and_left (id == id') (str_eq language language') y) in
          let l : language ≡ language' =
            (eq_iff language language').0 (and_right (id == id') (str_eq language language') y) in
          rw y (
            subst
              (λ x.
                locks_of (after_claim o id language job now lease rows) x language'
                ≡ some (job, now + lease))
              i
              (subst
                (λ x.
                  locks_of (after_claim o id language job now lease rows) id x
                  ≡ some (job, now + lease))
                l (claim-own o id language job now lease rows h ∙ rw c refl)))
    ]

left-lock :
    (o : QueueOrder) (id : ℕ) (language job : String) (now : Instant) (lease : Duration)
    (rows : List SearchRow)
    → all_rows shaped rows ≡ true
    → (lapsed now (locks_of rows id language) || owns job (locks_of rows id language)) ≡ false
    → (id' : ℕ) (language' : String)
    → locks_of (after_claim o id language job now lease rows) id' language'
      ≡ locks_of rows id' language'
left-lock o id language job now lease rows h c id' language' =
    elim (Bool-cases (id == id' && str_eq language language')) [
      | inr d ↦ claim-other o id language job now lease rows id' language' h d
      | inl y ↦
          let i : id ≡ id' =
            (==_iff id id').0 (and_left (id == id') (str_eq language language') y) in
          let l : language ≡ language' =
            (eq_iff language language').0 (and_right (id == id') (str_eq language language') y) in
          subst
            (λ x.
              locks_of (after_claim o id language job now lease rows) x language'
              ≡ locks_of rows x language')
            i
            (subst
              (λ x.
                locks_of (after_claim o id language job now lease rows) id x ≡ locks_of rows id x)
              l (claim-own o id language job now lease rows h ∙ rw c refl))
    ]

-- The table after a claim, its answer, and what they are of the locks.
take-step :
    (o : QueueOrder) (id : ℕ) (language job : String) (now : Instant) (lease : Duration)
    (rows : List SearchRow)
    → IsTable rows
    → (locks_of (table_step (take_lock o id language job now lease) rows).0
        ≡ (lock_step (take_lock o id language job now lease) (locks_of rows)).0)
      × ((table_step (take_lock o id language job now lease) rows).1
          ≡ (lock_step (take_lock o id language job now lease) (locks_of rows)).1)
unfolding table_step lock_step claim_search
take-step o id language job now lease rows (h, u) =
    elim (Bool-cases (str_eq job "" || lease == 0)) [
      | inl y ↦ rw y (refl, refl)
      | inr n ↦
          elim (Bool-cases
            (lapsed now (locks_of rows id language) || owns job (locks_of rows id language))) [
              | inl c ↦
                  rw (n, c)
                    (
                      fun_ext (λ id'. fun_ext (λ language'.
                          taken-lock o id language job now lease rows h c id' language')),
                      claim-answer o id language job now lease rows (h, u) ∙ c,
                    )
              | inr c ↦
                  rw (n, c)
                    (
                      fun_ext (λ id'. fun_ext (λ language'.
                          left-lock o id language job now lease rows h c id' language')),
                      claim-answer o id language job now lease rows (h, u) ∙ c,
                    )
            ]
    ]

extend-answer :
    (job : String) (now : Instant) (duration : Duration) (rows : List SearchRow)
    → (table_step (extend_lock job now duration) rows).1
      ≡ (lock_step (extend_lock job now duration) (locks_of rows)).1
unfolding table_step lock_step
extend-answer job now duration rows = elim (Bool-cases (str_eq job "" || duration == 0)) [
  | inl y ↦ rw y refl
  | inr n ↦ rw n refl
]

drop-answer :
    (job : String) (rows : List SearchRow)
    → (table_step (drop_lock job) rows).1 ≡ (lock_step (drop_lock job) (locks_of rows)).1
unfolding table_step lock_step
drop-answer job rows = elim (Bool-cases (str_eq job "")) [ inl y ↦ rw y refl | inr n ↦ rw n refl ]

again-step :
    (o : QueueOrder) (id : ℕ) (language : String) (at : Instant) (priority : ℕ)
    (unsupported : String) (rows : List SearchRow)
    → IsTable rows
    → (locks_of (table_step (queue_again o id language at priority unsupported) rows).0
        ≡ (lock_step (queue_again o id language at priority unsupported) (locks_of rows)).0)
      × ((table_step (queue_again o id language at priority unsupported) rows).1
          ≡ (lock_step (queue_again o id language at priority unsupported) (locks_of rows)).1)
unfolding table_step lock_step
again-step o id language at priority unsupported rows t =
    (again-locks o id language at priority unsupported rows t, refl)

claim_answer-IsTable :
    (rows : List SearchRow) (o : Outcome Bool)
    → IsTable (rows_after rows o)
    → IsTable (claim_answer rows o).0
claim_answer-IsTable rows (done rows' b) t = t
claim_answer-IsTable rows (failed e) t = t

-- The table stays well formed.
step-IsTable :
    (call : LockCall) (rows : List SearchRow) → IsTable rows → IsTable (table_step call rows).0
unfolding table_step
step-IsTable (take_lock o id language job now lease) rows t =
    claim_answer-IsTable rows (claim_search o id language job now lease rows)
      (claim-IsTable o id language job now lease rows t)
step-IsTable (extend_lock job now duration) rows t = renew-IsTable job now duration rows t
step-IsTable (drop_lock job) rows t = release-IsTable job rows t
step-IsTable (queue_again o id language at priority unsupported) rows t =
    schedule-IsTable o id language at priority unsupported rows t

step-refines :
    (call : LockCall) (rows : List SearchRow)
    → IsTable rows
    → (locks_of (table_step call rows).0 ≡ (lock_step call (locks_of rows)).0)
      × ((table_step call rows).1 ≡ (lock_step call (locks_of rows)).1)
step-refines (take_lock o id language job now lease) rows t =
    take-step o id language job now lease rows t
step-refines (extend_lock job now duration) rows t =
    (extend-locks job now duration rows t, extend-answer job now duration rows)
step-refines (drop_lock job) rows t = (drop-locks job rows t, drop-answer job rows)
step-refines (queue_again o id language at priority unsupported) rows t =
    again-step o id language at priority unsupported rows t

-- Claims, renewals, releases and changes that queue a search again, in any order: on a well-formed
-- table every claim is answered as the locks that the table stands for answer it.
pub table_run-refines :
    (calls : List LockCall) (rows : List SearchRow)
    → IsTable rows
    → table_run calls rows ≡ lock_run calls (locks_of rows)
unfolding table_run lock_run
table_run-refines [] rows t = refl
table_run-refines (call ∷ calls) rows t =
    let (locks, answer) = step-refines call rows t in
    ap (λ b. b ∷ table_run calls (table_step call rows).0) answer
    ∙ ap (λ bs. (lock_step call (locks_of rows)).1 ∷ bs)
        (table_run-refines calls (table_step call rows).0 (step-IsTable call rows t)
          ∙ ap (lock_run calls) locks)
