-- ===== src/Store/Outbox/Rows.antt =====
-- A well-formed outbox (internal/store/migrations/001_baseline.sql, 016, 024), and the calls that
-- are made on it.
use subsyncd.Common.{
  List, ◌≡◌, ◌∷◌, Bool, Option, ℕ, true, none, if◌then◌else◌, ◌&&◌, some, [], not, false, ◌==◌, any,
}
use subsyncd.Store.Outbox.{
  Intent, enqueue, lease_due_notifications, is_owned, renew_notification_lease, NotificationRequest,
  complete_notification, release_notification_lease, has_key, NotificationCompletion,
  prune_finished_notifications, forget_notifications,
}
use subsyncd.Common.Text.{String}
use subsyncd.Common.Time.{Instant, Duration}

abbrev pub all_intents : (Intent → Bool) → List Intent → Bool
all_intents p [] = true
all_intents p (r ∷ rows) = let rest = all_intents p rows in p r && rest

-- The columns of a lease are set together; a finished intent has a date and no key, and one that is
-- not finished has no date.
unfoldable pub sound : Intent → Bool
sound r =
    (if is_owned r
      then elim r.lease_until [ none ↦ false | some _ ↦ true ]
      else elim r.lease_until [ none ↦ true | some _ ↦ false ])
    && (if r.next_attempt_at == 0
        then elim r.finished_at [ none ↦ false | some _ ↦ true ]
          && elim r.dedupe_key [ none ↦ true | some _ ↦ false ]
        else elim r.finished_at [ none ↦ true | some _ ↦ false ])

-- The key of a row is not in the table.
abbrev pub key_free : List Intent → Intent → Bool
key_free rows r = elim r.dedupe_key [ none ↦ true | some k ↦ not (any (has_key k) rows) ]

-- The unique index on the keys.
unfoldable pub unique_keys : List Intent → Bool
unique_keys [] = true
unique_keys (r ∷ rows) = let rest = unique_keys rows in key_free rows r && rest

abbrev pub IsOutbox : List Intent → Type 0
IsOutbox rows = (all_intents sound rows ≡ true) × (unique_keys rows ≡ true)

pub data OutboxCall : Type 0 where
  enqueue_call : (String → Bool) → ℕ → NotificationRequest → OutboxCall
  lease_call : List String → Instant → ℕ → Duration → OutboxCall
  renew_call : String → Instant → Duration → OutboxCall
  complete_call : Instant → NotificationCompletion → OutboxCall
  release_call : String → OutboxCall
  prune_call : Instant → ℕ → OutboxCall
  forget_call : (String → Option String) → String → OutboxCall

-- The rows after a call, which are those before it where it failed.
abbrev pub rows_or : {A : Type 0} → List Intent → Option (List Intent × A) → List Intent
rows_or rows o = elim o [ none ↦ rows | some (rows', _) ↦ rows' ]

unfoldable pub apply_call : OutboxCall → List Intent → List Intent
apply_call (enqueue_call json_valid id q) rows = rows_or rows (enqueue json_valid id q rows)
apply_call (lease_call jobs now limit duration) rows =
    rows_or rows (lease_due_notifications jobs now limit duration rows)
apply_call (renew_call job now duration) rows = (renew_notification_lease job now duration rows).0
apply_call (complete_call clock c) rows = (complete_notification clock c rows).0
apply_call (release_call job) rows = release_notification_lease job rows
apply_call (prune_call before limit) rows =
    rows_or rows (prune_finished_notifications before limit rows)
apply_call (forget_call instance_of name) rows = forget_notifications instance_of name rows

unfoldable pub run_calls : List OutboxCall → List Intent → List Intent
unfolding apply_call
run_calls [] rows = rows
run_calls (call ∷ calls) rows = run_calls calls (apply_call call rows)
