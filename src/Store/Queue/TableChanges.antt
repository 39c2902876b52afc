-- ===== src/Store/Queue/TableChanges.antt =====
-- The statements of internal/store that queue a search, or change its schedule, keep a well-formed
-- table.
use subsyncd.Store.Queue.Changes.{
  upsert_search_state_with_priority, settle_pending_search, reject_row, delete_searches,
  record_user_rejection, schedule_media_search, ensure_upgrade_search, retry_throttled_searches,
  disarm_replacement, clear_search_resume, settle_row, delete_row, restart_row, schedule_row,
  complete_new, schedule_unsupported_row, upgrade_row,
}
use subsyncd.Store.Queue.Rows.{
  Media, QueueOrder, SearchRow, new_row, import_priority, is_row, no_resume, valid_search_priority,
  upgrade_priority, is_leased, unsupported_multi_episode,
}
use subsyncd.Store.Queue.Shape.{shaped, IsTable, update_where-IsTable}
use subsyncd.Common.{
  ℕ, List, Option, ◌∷◌, true, ◌==◌, Bool-cases, ◌≡◌, [], arith, inr, inl, refl, Option-cases, some,
  ◌||◌, ◌+◌, not, none, ◌&&◌, false, ltb,
}
use subsyncd.Common.Time.{Instant, Duration, is_zero}
use subsyncd.Common.Text.{String, str_eq}
use subsyncd.Store.Queue.Inserts.{upsert-IsTable}
use subsyncd.Store.Queue.History.{rows_after}
use subsyncd.Store.Queue.Keeps.{
  retry_row-shape, disarm_row-shape, settle_row-key, reject_row-key, delete_row-key,
  reject_row-shape, no_resume-shape, settle_row-shape, delete_row-shape, new_row-shaped,
  restart_row-key, schedule_row-key, schedule_row-shape, restart_row-shape, complete_new-shaped,
  schedule_unsupported_row-key, schedule_unsupported_row-shape, upgrade_row-key, upgrade_row-shape,
}

pub schedule-IsTable :
    (o : QueueOrder) (id : ℕ) (language : String) (at : Instant) (priority : ℕ)
    (unsupported : String) (rows : List SearchRow)
    → IsTable rows
    → IsTable (rows_after rows (schedule_media_search o id language at priority unsupported rows))
unfolding schedule_media_search
schedule-IsTable o id language at priority unsupported rows t =
    elim (Bool-cases (valid_search_priority priority)) [
      | inr n ↦ rw n t
      | inl v ↦ elim (Bool-cases (str_eq unsupported "")) [
        | inl e ↦
            rw (v, e)
              (upsert-IsTable (new_row o id language at priority) (λ _. true)
                (schedule_row at priority) (new_row-shaped o id language at priority v)
                (schedule_row-key at priority) (schedule_row-shape at priority v) rows t)
        | inr d ↦ elim (Bool-cases (str_eq unsupported unsupported_multi_episode)) [
          | inr u ↦ rw (v, d, u) t
          | inl k ↦
              rw (v, d, k)
                (upsert-IsTable (complete_new unsupported (new_row o id language at priority))
                  (λ _. true) (schedule_unsupported_row at priority unsupported)
                  (complete_new-shaped unsupported o id language at priority v)
                  (schedule_unsupported_row-key at priority unsupported)
                  (schedule_unsupported_row-shape at priority unsupported v) rows t)
        ]
      ]
    ]

reject_new-shaped :
    (o : QueueOrder) (id : ℕ) (language : String) (now : Instant)
    (lease : Option (String × Instant))
    → shaped (reject_row now lease (new_row o id language now import_priority)) ≡ true
unfolding reject_row shaped
reject_new-shaped o id language now lease = ground arith

pub upgrade-IsTable :
    (media : Media) (o : QueueOrder) (id : ℕ) (language : String) (next : Instant)
    (rows : List SearchRow)
    → IsTable rows
    → IsTable (rows_after rows (ensure_upgrade_search media o id language next rows))
unfolding ensure_upgrade_search
upgrade-IsTable media o id language next rows t = elim (Bool-cases (is_zero next)) [
  | inl z ↦ rw z t
  | inr n ↦ elim (Option-cases (media id)) [
    | inl e ↦ rw (n, e) t
    | inr (m, e) ↦ elim (Bool-cases (m.deleted || not (str_eq m.unsupported_reason ""))) [
      | inl y ↦ rw (n, e, y) t
      | inr f ↦
          rw (n, e, f)
            (upsert-IsTable (new_row o id language next upgrade_priority)
              (λ r.
                not (is_leased r)
                && elim r.lease_until [ none ↦ true | some _ ↦ false ]
                && (not r.pending || ltb next r.next_attempt_at))
              (upgrade_row next) (new_row-shaped o id language next upgrade_priority refl)
              (upgrade_row-key next) (upgrade_row-shape next _) rows t)
    ]
  ]
]

pub upsert_state-IsTable :
    (o : QueueOrder) (id : ℕ) (language : String) (next : Instant) (priority : ℕ)
    (rows : List SearchRow)
    → IsTable rows
    → IsTable (rows_after rows (upsert_search_state_with_priority o id language next priority rows))
unfolding upsert_search_state_with_priority
upsert_state-IsTable o id language next priority rows t =
    elim (Bool-cases (valid_search_priority priority)) [
      | inr n ↦ rw n t
      | inl v ↦ rw v (
          upsert-IsTable (new_row o id language next priority) (λ _. true)
            (restart_row next priority) (new_row-shaped o id language next priority v)
            (restart_row-key next priority) (restart_row-shape next priority v) rows t)
    ]

pub settle-IsTable :
    (id : ℕ) (language outcome : String) (now : Instant) (owner : String) (rows : List SearchRow)
    → IsTable rows
    → IsTable (settle_pending_search id language outcome now owner rows)
unfolding settle_pending_search
settle-IsTable id language outcome now owner rows t =
    update_where-IsTable _ (settle_row outcome) (settle_row-key outcome)
      (settle_row-shape outcome _) rows t

pub clear_resume-IsTable :
    (id : ℕ) (language : String) (rows : List SearchRow)
    → IsTable rows
    → IsTable (clear_search_resume id language rows)
unfolding clear_search_resume
clear_resume-IsTable id language rows t =
    update_where-IsTable (is_row id language) no_resume (λ r. (refl, refl))
      (no_resume-shape (is_row id language)) rows t

pub retry-IsTable :
    (media : Media) (now : Instant) (languages : List String) (rows : List SearchRow)
    → IsTable rows
    → IsTable (retry_throttled_searches media now languages rows).0
unfolding retry_throttled_searches
retry-IsTable media now [] rows t = t
retry-IsTable media now (l ∷ languages) rows t =
    update_where-IsTable _ _ (λ r. (refl, refl)) (retry_row-shape now _) rows t

pub reject-IsTable :
    (o : QueueOrder) (id : ℕ) (language : String) (now : Instant)
    (lease : Option (String × Duration)) (rows : List SearchRow)
    → IsTable rows
    → IsTable (record_user_rejection o id language now lease rows)
unfolding record_user_rejection
reject-IsTable o id language now none rows t =
    upsert-IsTable _ (λ _. true) (reject_row now none) (reject_new-shaped o id language now none)
      (reject_row-key now none) (reject_row-shape now none) rows t
reject-IsTable o id language now (some (owner, duration)) rows t =
    upsert-IsTable _ (λ _. true) (reject_row now (some (owner, now + duration)))
      (reject_new-shaped o id language now (some (owner, now + duration)))
      (reject_row-key now (some (owner, now + duration)))
      (reject_row-shape now (some (owner, now + duration))) rows t

pub disarm-IsTable :
    (id : ℕ) (language : String) (rows : List SearchRow)
    → IsTable rows
    → IsTable (disarm_replacement id language rows)
unfolding disarm_replacement
disarm-IsTable id language rows t =
    update_where-IsTable (is_row id language) _ (λ r. (refl, refl)) (disarm_row-shape _) rows t

pub delete-IsTable :
    (id : ℕ) (rows : List SearchRow) → IsTable rows → IsTable (delete_searches id rows)
unfolding delete_searches
delete-IsTable id rows t =
    update_where-IsTable (λ r. r.media_id == id) delete_row delete_row-key (delete_row-shape _) rows
      t
