-- ===== src/Store/Queue/Inventory.antt =====
-- The statements that other methods of internal/store make on the table of searches: when a file is
-- replaced, when instances are ranked or forgotten, when languages are configured
-- (internal/store/repository.go, forget_instance.go), and the trigger that follows the media's
-- order (internal/store/migrations/017_search_media_order.sql).
use subsyncd.Common.{
  ℕ, List, keep, none, true, Bool, length, Option-cases, ◌∷◌, [], inl, ◌-◌, ◌==◌, some, false, max,
  not, ◌&&◌, if◌then◌else◌, inr, Bool-cases, any, ◌++◌,
}
use subsyncd.Store.Queue.Rows.{
  Media, QueueOrder, SearchRow, update_where, MediaRow, new_row, import_priority, no_resume,
  missing_priority, lease_free, is_row,
}
use subsyncd.Common.Time.{Instant}
use subsyncd.Common.Text.{String, str_eq}
use subsyncd.Store.Queue.Changes.{complete_new}

-- `clear replaced media search resume` of `ReplaceTrackInventory`
unfoldable pub clear_media_resume : ℕ → List SearchRow → List SearchRow
clear_media_resume id rows = update_where (λ r. r.media_id == id) no_resume rows

-- `MAX(priority, SearchPriorityImport)`, and due now.
unfoldable pub again_row : Instant → SearchRow → SearchRow
again_row now r = record r {
  pending = true;
  next_attempt_at = now;
  queue_order = now;
  priority = max r.priority import_priority;
}

-- `schedule replaced media searches`, for the languages that the file has a subtitle installed of.
unfoldable pub schedule_replaced_media : ℕ → List String → Instant → List SearchRow → List SearchRow
unfolding again_row
schedule_replaced_media id installed now rows =
    update_where (λ r. r.media_id == id && any (str_eq r.language) installed && lease_free now r)
      (again_row now) rows

-- `re-rank searches`, with the queue priorities of the instances.
abbrev pub rank_row : Media → (String → ℕ) → SearchRow → SearchRow
rank_row media rank r = record r {
  instance_rank = elim (media r.media_id) [
    | none ↦ r.instance_rank
    | some m ↦ rank m.instance_name
  ];
}

-- `SetInstanceQueuePriorities`
unfoldable pub set_instance_queue_priorities :
    Media → (String → ℕ) → List SearchRow → List SearchRow
set_instance_queue_priorities media rank rows = update_where (λ _. true) (rank_row media rank) rows

-- The trigger `media_search_order`.
unfoldable pub reorder_media : ℕ → QueueOrder → List SearchRow → List SearchRow
reorder_media id o rows =
    update_where (λ r. r.media_id == id)
      (λ r. record r {
        sort_title = o.title;
        sort_series = o.series;
        sort_season = o.season;
        sort_episode = o.episode;
      })
      rows

-- `media WHERE instance=?`
abbrev pub in_instance : Media → String → ℕ → Bool
in_instance media name id = elim (media id) [ none ↦ false | some m ↦ str_eq m.instance_name name ]

-- `ForgetInstance`: the searches of the instance's media go with them.
unfoldable pub forget_searches : Media → String → List SearchRow → List SearchRow
forget_searches media name rows = keep (λ r. not (in_instance media name r.media_id)) rows

-- The row that is inserted for one media row, where the search has none.
unfoldable pub backfill_row :
    QueueOrder → ℕ → String → Instant → MediaRow → List SearchRow → List SearchRow
backfill_row o id language now m rows =
    let new = new_row o id language now missing_priority in
    let inserted =
      if str_eq m.unsupported_reason "" then new else complete_new m.unsupported_reason new in
    if any (is_row id language) rows then rows else rows ++ inserted ∷ []

unfoldable pub backfill_media :
    Media → String → String → Instant → ℕ × QueueOrder → List SearchRow → List SearchRow
unfolding backfill_row
backfill_media media name language now (id, o) rows = elim (media id) [
  | none ↦ rows
  | some m ↦
      if str_eq m.instance_name name && not m.deleted
      then backfill_row o id language now m rows
      else rows
]

-- One statement of `EnsureConfiguredLanguageSearches`, over the ids of the table `media`.
unfoldable pub backfill_all :
    Media → List (ℕ × QueueOrder) → String → String → Instant → List SearchRow → List SearchRow
unfolding backfill_media
backfill_all media [] name language now rows = rows
backfill_all media (entry ∷ ids) name language now rows =
    backfill_all media ids name language now (backfill_media media name language now entry rows)

unfoldable pub backfill_languages :
    Media → List (ℕ × QueueOrder) → String → List String → Instant → List SearchRow → List SearchRow
unfolding backfill_all
backfill_languages media ids name [] now rows = rows
backfill_languages media ids name (language ∷ languages) now rows =
    backfill_languages media ids name languages now (backfill_all media ids name language now rows)

-- `EnsureConfiguredLanguageSearches`: the table, and the number of searches that it inserts.
unfoldable pub ensure_languages :
    Media
    → List (ℕ × QueueOrder)
    → List String
    → List String
    → Instant
    → List SearchRow
    → List SearchRow
unfolding backfill_languages
ensure_languages media ids [] languages now rows = rows
ensure_languages media ids (name ∷ instances) languages now rows =
    ensure_languages media ids instances languages now
      (backfill_languages media ids name languages now rows)

unfoldable pub ensure_configured_language_searches :
    Media
    → List (ℕ × QueueOrder)
    → List String
    → List String
    → Instant
    → List SearchRow
    → List SearchRow × ℕ
unfolding ensure_languages
ensure_configured_language_searches media ids instances languages now rows =
    let rows' = ensure_languages media ids instances languages now rows in
    (rows', length rows' - length rows)

-- What every insert of one row keeps, the method keeps.
module _ (P : List SearchRow → Type 0) (media : Media) (now : Instant) where
  abbrev Backfills : Type 0
  Backfills =
      (o : QueueOrder) (id : ℕ) (language : String) (m : MediaRow) (rows : List SearchRow)
      → P rows
      → P (backfill_row o id language now m rows)

  media-keeps :
      Backfills
      → (name language : String) (entry : ℕ × QueueOrder) (rows : List SearchRow) → P rows
      → P (backfill_media media name language now entry rows)
  unfolding backfill_media
  media-keeps each name language (id, o) rows h = elim (Option-cases (media id)) [
    | inl e ↦ rw (e, backfill_media) h
    | inr (m, e) ↦ elim (Bool-cases (str_eq m.instance_name name && not m.deleted)) [
      | inl y ↦ rw (e, backfill_media, y) (each o id language m rows h)
      | inr n ↦ rw (e, backfill_media, n) h
    ]
  ]

  all-keeps :
      Backfills
      → (ids : List (ℕ × QueueOrder)) (name language : String) (rows : List SearchRow) → P rows
      → P (backfill_all media ids name language now rows)
  unfolding backfill_all
  all-keeps each [] name language rows h = h
  all-keeps each (entry ∷ ids) name language rows h =
      all-keeps each ids name language _ (media-keeps each name language entry rows h)

  languages-keep :
      Backfills
      → (ids : List (ℕ × QueueOrder)) (name : String) (languages : List String)
        (rows : List SearchRow)
      → P rows
      → P (backfill_languages media ids name languages now rows)
  unfolding backfill_languages
  languages-keep each ids name [] rows h = h
  languages-keep each ids name (language ∷ languages) rows h =
      languages-keep each ids name languages _ (all-keeps each ids name language rows h)

  pub ensure-keeps :
      Backfills
      → (ids : List (ℕ × QueueOrder)) (instances languages : List String) (rows : List SearchRow)
      → P rows
      → P (ensure_languages media ids instances languages now rows)
  unfolding ensure_languages
  ensure-keeps each ids [] languages rows h = h
  ensure-keeps each ids (name ∷ instances) languages rows h =
      ensure-keeps each ids instances languages _ (languages-keep each ids name languages rows h)
