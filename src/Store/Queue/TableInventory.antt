-- ===== src/Store/Queue/TableInventory.antt =====
-- The statements of internal/store on replaced files, forgotten and ranked instances and configured
-- languages keep a well-formed table.
use subsyncd.Store.Queue.Shape.{
  unique, shaped, KeepsKey, IsTable, update_where-IsTable, KeepsShape, all_rows,
}
use subsyncd.Store.Queue.Inventory.{
  forget_searches, schedule_replaced_media, ensure_configured_language_searches, again_row,
  set_instance_queue_priorities, clear_media_resume, backfill_row, reorder_media, ensure-keeps,
  rank_row,
}
use subsyncd.Common.{
  ℕ, List, ◌≡◌, Bool, keep, true, Bool-cases, refl, if◌then◌else◌, ◌∷◌, arith, inl, and_left, any,
  not, ◌++◌, and_right, [], inr, and_true, false, ap, ◌∙◌, any-keep-false, negated, subst, ◌&&◌,
}
use subsyncd.Store.Queue.Rows.{
  SearchRow, Media, QueueOrder, MediaRow, no_resume, is_row, new_row, missing_priority,
  update_where,
}
use subsyncd.Common.Text.{String, str_eq}
use subsyncd.Common.Time.{Instant}
use subsyncd.Store.Queue.Keeps.{no_resume-shape, new_row-shaped, complete_new-shaped}
use subsyncd.Store.Queue.Inserts.{upsert-IsTable}
use subsyncd.Store.Queue.Changes.{complete_new}

pub clear_media_resume-IsTable :
    (id : ℕ) (rows : List SearchRow) → IsTable rows → IsTable (clear_media_resume id rows)
unfolding clear_media_resume
clear_media_resume-IsTable id rows t =
    update_where-IsTable _ no_resume (λ r. (refl, refl)) (no_resume-shape _) rows t

again_row-shape : (now : Instant) (p : SearchRow → Bool) → KeepsShape p (again_row now)
unfolding shaped again_row
again_row-shape now p r h _ = ground arith

again_row-key : (now : Instant) → KeepsKey (again_row now)
unfolding again_row
again_row-key now r = (refl, refl)

pub schedule_replaced_media-IsTable :
    (id : ℕ) (installed : List String) (now : Instant) (rows : List SearchRow)
    → IsTable rows
    → IsTable (schedule_replaced_media id installed now rows)
unfolding schedule_replaced_media
schedule_replaced_media-IsTable id installed now rows t =
    update_where-IsTable _ (again_row now) (again_row-key now) (again_row-shape now _) rows t

rank_row-shape :
    (media : Media) (rank : String → ℕ) (p : SearchRow → Bool) → KeepsShape p (rank_row media rank)
unfolding shaped
rank_row-shape media rank p r h _ = h

pub rank_instances-IsTable :
    (media : Media) (rank : String → ℕ) (rows : List SearchRow)
    → IsTable rows
    → IsTable (set_instance_queue_priorities media rank rows)
unfolding set_instance_queue_priorities
rank_instances-IsTable media rank rows t =
    update_where-IsTable (λ _. true) (rank_row media rank) (λ r. (refl, refl))
      (rank_row-shape media rank _) rows t

pub reorder_media-IsTable :
    (id : ℕ) (o : QueueOrder) (rows : List SearchRow)
    → IsTable rows
    → IsTable (reorder_media id o rows)
unfolding reorder_media shaped
reorder_media-IsTable id o rows t = update_where-IsTable _ _ (λ r. (refl, refl)) (λ r h _. h) rows t

keep-IsTable : (p : SearchRow → Bool) (rows : List SearchRow) → IsTable rows → IsTable (keep p rows)
unfolding unique
keep-IsTable p [] t = t
keep-IsTable p (r ∷ rows) (h, u) =
    let fresh = and_left (not (any (is_row r.media_id r.language) rows)) (unique rows) u in
    let (h', u') = keep-IsTable p rows (
      and_right (shaped r) (all_rows shaped rows) h,
      and_right (not (any (is_row r.media_id r.language) rows)) (unique rows) u,
    ) in
    elim (Bool-cases (p r)) [
      | inr n ↦ rw n (h', u')
      | inl y ↦ rw y (
        and_true (shaped r) (all_rows shaped (keep p rows))
            (and_left (shaped r) (all_rows shaped rows) h) h',
        and_true (not (any (is_row r.media_id r.language) (keep p rows))) (unique (keep p rows))
            (ap not (
              any-keep-false (is_row r.media_id r.language) p rows
                (negated (any (is_row r.media_id r.language) rows) fresh)))
            u',
      )
    ]

pub forget_searches-IsTable :
    (media : Media) (name : String) (rows : List SearchRow)
    → IsTable rows
    → IsTable (forget_searches media name rows)
unfolding forget_searches
forget_searches-IsTable media name rows t = keep-IsTable _ rows t

-- An insert of a row whose search is not in the table.
insert-IsTable :
    (id : ℕ) (language : String) (new : SearchRow) (rows : List SearchRow)
    → shaped new ≡ true
    → new.media_id ≡ id
    → new.language ≡ language
    → IsTable rows
    → IsTable (if any (is_row id language) rows then rows else rows ++ new ∷ [])
insert-IsTable id language new rows s i l t =
    let kept = upsert-IsTable new (λ _. false) (λ r. r) s (λ r. (refl, refl)) (λ r h _. h) rows t in
    elim (Bool-cases (any (is_row id language) rows)) [
      | inl y ↦ rw y t
      | inr n ↦
          let absent : any (is_row new.media_id new.language) rows ≡ false =
            ap (λ x. any (is_row x new.language) rows) i ∙ ap (λ x. any (is_row id x) rows) l ∙ n in
          rw n (
            subst
              (λ (b : Bool). IsTable (
                if b
                then update_where (λ r. is_row new.media_id new.language r && false) (λ r. r) rows
                else rows ++ new ∷ []))
              absent kept)
    ]

backfill_row-IsTable :
    (now : Instant) (o : QueueOrder) (id : ℕ) (language : String) (m : MediaRow)
    (rows : List SearchRow)
    → IsTable rows
    → IsTable (backfill_row o id language now m rows)
unfolding backfill_row
backfill_row-IsTable now o id language m rows t =
    elim (Bool-cases (str_eq m.unsupported_reason "")) [
      | inl y ↦ rw y (
          insert-IsTable id language (new_row o id language now missing_priority) rows
            (new_row-shaped o id language now missing_priority refl) refl refl t)
      | inr n ↦ rw n (
          insert-IsTable id language
            (complete_new m.unsupported_reason (new_row o id language now missing_priority)) rows
            (complete_new-shaped m.unsupported_reason o id language now missing_priority refl) refl
            refl t)
    ]

pub backfill-IsTable :
    (media : Media) (ids : List (ℕ × QueueOrder)) (instances languages : List String)
    (now : Instant) (rows : List SearchRow)
    → IsTable rows
    → IsTable (ensure_configured_language_searches media ids instances languages now rows).0
unfolding ensure_configured_language_searches
backfill-IsTable media ids instances languages now rows t =
    ensure-keeps IsTable media now (backfill_row-IsTable now) ids instances languages rows t
