-- ===== src/Workflow/RemovalBudget.antt =====
-- internal/workflow/removal_budget.go: how many sidecars of replaced media files may be deleted in
-- a rolling hour. Each method runs under the budget's mutex, so it is one step on its state.
mod Window
mod Slots
mod Scenarios
use subsyncd.Common.Time.{Instant, hour, Duration, sub_lt, sub_ge, is_zero, before}
use subsyncd.Common.{
  ℕ, Option, [], if◌then◌else◌, Bool, List, keep, true, ◌∷◌, some, leb, ltb, ◌+◌, ◌==◌, none,
  length, ◌++◌, false, ◌||◌,
}

pub record RemovalBudget : Type 0 where
  pub limit : ℕ
  pub window : Duration
  pub taken : List Instant

-- `NewReplacedRemovalBudget`: `MaxReplacedRemovalsPerHour` for each `replacedRemovalWindow`
unfoldable pub new_replaced_removal_budget : RemovalBudget
new_replaced_removal_budget = record { limit = 20; window = hour; taken = [] }

-- The deletions that are still in the window at `now`.
abbrev pub live_at : Instant → Duration → List Instant → List Instant
live_at now window = keep (λ at. sub_lt now at window)

-- The closure that `reserve` returns: the time to give back, and whether `once` has run.
pub record Release : Type 0 where
  pub at : Instant
  pub done : Bool

-- `reserve`, on a budget that is not nil.
unfoldable pub reserve : Instant → RemovalBudget → RemovalBudget × Option Release
reserve now b =
    let kept = live_at now b.window b.taken in
    if leb b.limit (length kept)
    then (record b { taken = kept }, none)
    else (record b { taken = kept ++ now ∷ [] }, some (record { at = now; done = false }))

-- The loop of a release: the first deletion at that time leaves the list.
unfoldable pub remove_first : Instant → List Instant → List Instant
remove_first now [] = []
remove_first now (at ∷ taken) =
    let rest = at ∷ remove_first now taken in if at == now then taken else rest

unfoldable pub release : Release → RemovalBudget → Release × RemovalBudget
unfolding remove_first
release r b =
    if r.done
    then (r, b)
    else (record r { done = true }, record b { taken = remove_first r.at b.taken })

-- The loop of `nextSlot` over `live` and `oldest`.
unfoldable pub scan : Instant → Duration → List Instant → ℕ → Instant → ℕ × Instant
scan now window [] live oldest = (live, oldest)
scan now window (at ∷ taken) live oldest =
    let skip = sub_ge now at window in
    let first = is_zero oldest || before at oldest in
    scan now window taken (if skip then live else live + 1)
      (if skip then oldest else if first then at else oldest)

-- `nextSlot`, on a budget that is not nil.
unfoldable pub next_slot : Instant → RemovalBudget → Instant
unfolding scan
next_slot now b =
    let (live, oldest) = scan now b.window b.taken 0 0 in
    if ltb live b.limit then now else oldest + b.window

-- The methods on a pointer, which may be nil: a nil budget never limits.
unfoldable pub reserve? : Instant → Option RemovalBudget → Option RemovalBudget × Bool
unfolding reserve
reserve? now none = (none, true)
reserve? now (some b) =
    let (b', r) = reserve now b in (some b', elim r [ none ↦ false | some _ ↦ true ])

unfoldable pub next_slot? : Instant → Option RemovalBudget → Instant
unfolding next_slot
next_slot? now none = now
next_slot? now (some b) = next_slot now b
