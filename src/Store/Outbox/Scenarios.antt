-- ===== src/Store/Outbox/Scenarios.antt =====
-- The theorems on the outbox at concrete tables.
use subsyncd.Common.{any, List, true, Bool, ◌≡◌, ◌∷◌, refl, none, some, []}
use subsyncd.Store.Outbox.{
  NotificationRequest, NotificationCompletion, Intent, valid_request, new_intent,
  prune_finished_notifications, enqueue, enqueue_notification, insert_intent, drop_key,
  lease_due_notifications, lease_intents, sort_due, claim_intent, complete_notification,
  finish_intent,
}
use subsyncd.Common.Text.{String}
use subsyncd.Store.Outbox.Delivery.{all_spare, spares, run_calls-pending}
use subsyncd.Store.Outbox.Rows.{
  sound, IsOutbox, unique_keys, run_calls, OutboxCall, enqueue_call, apply_call, lease_call,
  complete_call, prune_call,
}
use subsyncd.Store.Outbox.Pruning.{Pruned, prune_finished_notifications-Pruned}
use subsyncd.Store.Outbox.Coalescing.{Announced, enqueue-announces}
use subsyncd.Store.Outbox.Ids.{unique_ids}
use subsyncd.Store.Outbox.Sparing.{pending}
use subsyncd.Store.Outbox.Upkeep.{run_calls-IsOutbox}

-- Every payload is valid JSON here.
abbrev any_json : String → Bool
any_json s = true

abbrev rescan : NotificationRequest
rescan = record {
  notifier = "sonarr";
  dedupe_key = "series:7";
  payload_json = "{}";
  next_attempt_at = 20;
  coalesce = true;
}

-- An intent that a job is sending, and one that was delivered.
abbrev sending : Intent
sending = record (new_intent 1 rescan) { lease_owner = some "job-1"; lease_until = some 50 }

abbrev delivered : Intent
delivered = record (new_intent 2 rescan) {
  next_attempt_at = 0;
  dedupe_key = none;
  finished_at = some 5;
}

abbrev two_intents : List Intent
two_intents = sending ∷ delivered ∷ []

two_intents-IsOutbox : IsOutbox two_intents
unfolding sound unique_keys
two_intents-IsOutbox = (refl, refl)

two_ids : unique_ids two_intents ≡ true
unfolding unique_ids
two_ids = refl

abbrev retry : NotificationCompletion
retry = record { job_id = "job-1"; result = "timeout"; next_attempt_at = 90; finished_at = 0 }

-- The same rescan is wanted again while it is being sent, which fails and is tried again.
abbrev busy_hour : List OutboxCall
busy_hour =
    enqueue_call any_json 3 rescan
    ∷ lease_call ("job-2" ∷ []) 30 4 30
    ∷ complete_call 40 retry
    ∷ prune_call 60 10
    ∷ []

run_calls-IsOutbox_example : IsOutbox (run_calls busy_hour two_intents)
run_calls-IsOutbox_example = run_calls-IsOutbox busy_hour two_intents two_intents-IsOutbox

enqueue-announces_example :
    Announced (valid_request any_json rescan) rescan (enqueue any_json 3 rescan two_intents)
enqueue-announces_example = enqueue-announces any_json 3 rescan two_intents two_intents-IsOutbox

spared : all_spare 1 busy_hour two_intents ≡ true
unfolding all_spare spares apply_call enqueue enqueue_notification insert_intent drop_key
    lease_due_notifications lease_intents sort_due claim_intent complete_notification finish_intent
spared = refl

run_calls-pending_example : any (pending 1) (run_calls busy_hour two_intents) ≡ true
run_calls-pending_example = run_calls-pending 1 busy_hour two_intents two_ids spared refl

prune_finished_notifications-Pruned_example :
    Pruned 10 two_intents (prune_finished_notifications 60 10 two_intents)
prune_finished_notifications-Pruned_example =
    prune_finished_notifications-Pruned 60 10 two_intents two_ids
