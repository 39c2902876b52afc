-- ===== src/Workflow/RemovalBudget/Scenarios.antt =====
-- The budget's theorems on small budgets.
use subsyncd.Workflow.RemovalBudget.Window.{live_count, request_all, request_all-le-limit}
use subsyncd.Workflow.RemovalBudget.{reserve, next_slot, RemovalBudget, release}
use subsyncd.Common.{◌≤◌, List, ◌≡◌, [], ◌∷◌, refl, true, false, arith, ◌<◌}
use subsyncd.Common.Time.{Instant}
use subsyncd.Workflow.RemovalBudget.Slots.{is_granted, release-reserve, next_slot-first}

abbrev times : List Instant
times = 5 ∷ 6 ∷ 8 ∷ 16 ∷ []

-- Two deletions in any ten: the third request is refused, the fourth granted.
request_all-two :
    (request_all (record { limit = 2; window = 10; taken = [] }) [] times).1 ≡ 5 ∷ 6 ∷ 16 ∷ []
unfolding request_all reserve
request_all-two = refl

request_all-le-limit_example :
    live_count 17 10 (request_all (record { limit = 2; window = 10; taken = [] }) [] times).1 ≤ 2
request_all-le-limit_example =
    request_all-le-limit 2 10 times 17
      (omega arith, (omega arith, (omega arith, (omega arith, tt)))) (omega arith)

abbrev crowded : RemovalBudget
crowded = record { limit = 2; window = 10; taken = 5 ∷ 6 ∷ [] }

crowded-next : next_slot 8 crowded ≡ 15
unfolding next_slot
crowded-next = refl

next_slot-first_example :
    (8 ≤ next_slot 8 crowded)
    × (is_granted (reserve (next_slot 8 crowded) crowded).1 ≡ true)
    × ((u : Instant) → 8 ≤ u → u < next_slot 8 crowded → is_granted (reserve u crowded).1 ≡ false)
next_slot-first_example =
    next_slot-first 8 crowded (omega arith, (omega arith, tt)) (omega arith) (omega arith)

abbrev spare : RemovalBudget
spare = record { limit = 2; window = 10; taken = 5 ∷ [] }

release-reserve_example :
    live_count 9 10 (release (record { at = 8; done = false }) (reserve 8 spare).0).1.taken ≡ 1
unfolding reserve release
release-reserve_example = (release-reserve 8 9 spare (reserve 8 spare).0 _ refl (omega arith)).0
