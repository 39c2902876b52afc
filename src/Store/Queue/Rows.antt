-- ===== src/Store/Queue/Rows.antt =====
-- The table `search_states` with the rows of `media` that it joins, and how SQL changes its rows
-- (internal/store/migrations, internal/store/repository.go).
use subsyncd.Common.{
  some, ℕ, Bool, List, false, ◌==◌, none, ◌∷◌, if◌then◌else◌, Option, true, [], ◌+◌, leb, ◌&&◌,
  ◌||◌, any, ◌++◌,
}
use subsyncd.Common.Text.{String, str_eq}
use subsyncd.Common.Time.{Instant}

-- `Priority`: 100 for upgrades, 200 for missing subtitles, 300 for imports.
abbrev pub upgrade_priority : ℕ
upgrade_priority = 100

abbrev pub missing_priority : ℕ
missing_priority = 200

abbrev pub import_priority : ℕ
import_priority = 300

-- `validSearchPriority`
abbrev pub valid_search_priority : ℕ → Bool
valid_search_priority p = p == upgrade_priority || p == missing_priority || p == import_priority

-- `validUnsupportedReason`
abbrev pub unsupported_multi_episode : String
unsupported_multi_episode = "unsupported_multi_episode"

abbrev pub valid_unsupported_reason : String → Bool
valid_unsupported_reason reason = str_eq reason "" || str_eq reason unsupported_multi_episode

-- `pending` is `state='pending'`; the other state is complete. The list of resumed providers is
-- decoded, and `none` where its JSON is malformed. A date of 0 is none.
pub record SearchRow : Type 0 where
  pub media_id : ℕ
  pub language : String
  pub pending : Bool
  pub attempt : ℕ
  pub failure_attempt : ℕ
  pub next_attempt_at : Instant
  pub queue_order : Instant
  pub last_outcome : String
  pub priority : ℕ
  pub rerun_requested : Bool
  pub replace_installed : Bool
  pub lease_owner : Option String
  pub lease_until : Option Instant
  pub resume_providers : Option (List String)
  pub resume_route_signature : String
  pub resume_saved_at : Instant
  pub instance_rank : ℕ
  pub sort_title : String
  pub sort_series : ℕ
  pub sort_season : ℕ
  pub sort_episode : ℕ

-- The columns of `media` that the statements read; `multi_episode` is `episode_end > episode`.
pub record MediaRow : Type 0 where
  pub instance_name : String
  pub is_episode : Bool
  pub multi_episode : Bool
  pub deleted : Bool
  pub unsupported_reason : String

abbrev pub Media : Type 0
Media = ℕ → Option MediaRow

-- What the insert trigger copies from the media.
pub record QueueOrder : Type 0 where
  pub rank : ℕ
  pub title : String
  pub series : ℕ
  pub season : ℕ
  pub episode : ℕ

-- A row as it is inserted, with the defaults of the columns that no statement names.
abbrev pub new_row : QueueOrder → ℕ → String → Instant → ℕ → SearchRow
new_row o id language at priority = record {
  media_id = id;
  language = language;
  pending = true;
  attempt = 0;
  failure_attempt = 0;
  next_attempt_at = at;
  queue_order = at;
  last_outcome = "";
  priority = priority;
  rerun_requested = false;
  replace_installed = false;
  lease_owner = none;
  lease_until = none;
  resume_providers = some [];
  resume_route_signature = "";
  resume_saved_at = 0;
  instance_rank = o.rank;
  sort_title = o.title;
  sort_series = o.series;
  sort_season = o.season;
  sort_episode = o.episode;
}

abbrev pub is_row : ℕ → String → SearchRow → Bool
is_row id language r = r.media_id == id && str_eq r.language language

-- `lease_owner=?`
abbrev pub owned_by : String → SearchRow → Bool
owned_by job r = elim r.lease_owner [ none ↦ false | some owner ↦ str_eq owner job ]

abbrev pub is_leased : SearchRow → Bool
is_leased r = elim r.lease_owner [ none ↦ false | some owner ↦ true ]

-- `lease_until_ns IS NULL OR lease_until_ns <= now`
abbrev pub lease_free : Instant → SearchRow → Bool
lease_free now r = elim r.lease_until [ none ↦ true | some until ↦ leb until now ]

-- `resume_providers_json='[]', resume_route_signature=''`
abbrev pub no_resume : SearchRow → SearchRow
no_resume r = record r { resume_providers = some []; resume_route_signature = "" }

abbrev pub release_row : SearchRow → SearchRow
release_row r = record r { rerun_requested = false; lease_owner = none; lease_until = none }

-- `UPDATE … SET f WHERE p`, and the number of its rows.
abbrev pub update_where :
    (SearchRow → Bool) → (SearchRow → SearchRow) → List SearchRow → List SearchRow
update_where p f [] = []
update_where p f (r ∷ rs) = (if p r then f r else r) ∷ update_where p f rs

abbrev pub count_where : (SearchRow → Bool) → List SearchRow → ℕ
count_where p [] = 0
count_where p (r ∷ rs) = (if p r then 1 else 0) + count_where p rs

-- `INSERT … ON CONFLICT(media_id, language) DO UPDATE SET f WHERE q`
abbrev pub upsert :
    SearchRow → (SearchRow → Bool) → (SearchRow → SearchRow) → List SearchRow → List SearchRow
upsert new q f rows =
    if any (is_row new.media_id new.language) rows
    then update_where (λ r. is_row new.media_id new.language r && q r) f rows
    else rows ++ new ∷ []

-- The first row that passes a test.
abbrev pub find_where : (SearchRow → Bool) → List SearchRow → Option SearchRow
find_where p [] = none
find_where p (r ∷ rs) = let rest = find_where p rs in if p r then some r else rest

pub data QueueError : Type 0 where
  invalid_argument lease_not_found no_job_id invalid_resume : QueueError

pub data Outcome (A : Type 0) : Type 0 where
  done : List SearchRow → A → Outcome A
  failed : QueueError → Outcome A
