-- ===== src/Workflow/RemovalBudget/Window.antt =====
-- However deletions are requested, no window holds more of them than the limit.
use subsyncd.Common.Time.{Instant, Duration, sub_lt}
use mathlib.Core.List.{append-nil}
use subsyncd.Workflow.RemovalBudget.{RemovalBudget, reserve, Release, live_at}
use subsyncd.Common.{
  Option, ◌≡◌, List, ◌∷◌, ◌≤◌, ℕ, [], ◌++◌, some, ◌+◌, length, arith, length-keep-le, refl, none,
  Bool-cases, ◌∙◌, leb, inl, sym, inr, length-append,
}

-- How many deletions of a list are in the window at `now`.
abbrev pub live_count : Instant → Duration → List Instant → ℕ
live_count now window xs = length (live_at now window xs)

pub live_count-append :
    (t : Instant) (w : Duration) (xs ys : List Instant)
    → live_count t w (xs ++ ys) ≡ live_count t w xs + live_count t w ys
live_count-append t w [] ys = omega arith
live_count-append t w (at ∷ xs) ys = ground (arith, live_count-append t w xs ys)

-- What has left the window does not come back.
pub live_count-live_at :
    (now t : Instant) (w : Duration) (xs : List Instant)
    → now ≤ t
    → live_count t w (live_at now w xs) ≡ live_count t w xs
live_count-live_at now t w [] h = refl
live_count-live_at now t w (at ∷ xs) h = ground (arith, live_count-live_at now t w xs h)

pub live_count-antitone :
    (now t : Instant) (w : Duration) (xs : List Instant)
    → now ≤ t
    → live_count t w xs ≤ live_count now w xs
live_count-antitone now t w [] h = omega arith
live_count-antitone now t w (at ∷ xs) h = ground (arith, live_count-antitone now t w xs h)

live_count-le-length :
    (t : Instant) (w : Duration) (xs : List Instant) → live_count t w xs ≤ length xs
live_count-le-length t w xs = length-keep-le _ xs

abbrev granted : Option Release → List Instant
granted none = []
granted (some r) = r.at ∷ []

-- A run of requests: the budget after it, and the log of the deletions that were granted.
unfoldable pub request_all :
    RemovalBudget → List Instant → List Instant → RemovalBudget × List Instant
request_all b log [] = (b, log)
request_all b log (now ∷ times) =
    let (b', r) = reserve now b in request_all b' (log ++ granted r) times

-- The clock does not run backwards.
abbrev pub IsRising : Instant → List Instant → Type 0
IsRising now [] = Unit {0}
IsRising now (t ∷ times) = (now ≤ t) × IsRising t times

abbrev pub last_of : Instant → List Instant → Instant
last_of now [] = now
last_of now (t ∷ times) = last_of t times

-- The budget remembers of the log what still matters, and no more than its limit.
record Inv (now : Instant) (b : RemovalBudget) (log : List Instant) : Type 0 where
  remembers : (t : Instant) → now ≤ t → live_count t b.window log ≡ live_count t b.window b.taken
  within : length b.taken ≤ b.limit

reserve_lem :
    (now : Instant) (b : RemovalBudget)
    → let (b', r) = reserve now b in
      (b'.limit ≡ b.limit)
      × (b'.window ≡ b.window)
      × (b'.taken ≡ live_at now b.window b.taken ++ granted r)
      × (length b.taken ≤ b.limit → length b'.taken ≤ b.limit)
unfolding reserve
reserve_lem now b = elim (Bool-cases (leb b.limit (length (live_at now b.window b.taken)))) [
  | inl full ↦ rw full (
    refl,
    refl,
    sym (append-nil _),
    λ h. omega (arith, length-keep-le (λ at. sub_lt now at b.window) b.taken),
  )
  | inr room ↦ rw room (
    refl,
    refl,
    refl,
    λ h. rw (length-append (live_at now b.window b.taken) (now ∷ [])) (ground arith),
  )
]

reserve-Inv :
    (now at : Instant) (b : RemovalBudget) (log : List Instant)
    → now ≤ at
    → Inv now b log
    → let (b', r) = reserve at b in Inv at b' (log ++ granted r)
reserve-Inv now at b log h v =
    let (limit, window, taken, within) = reserve_lem at b in
    let fresh = granted (reserve at b).1 in
    record {
      remembers = λ t l.
          rw (window, taken)
            (omega (
              arith,
              live_count-append t b.window log fresh,
              live_count-append t b.window (live_at at b.window b.taken) fresh,
              live_count-live_at at t b.window b.taken l,
              v.remembers t (omega arith),
            ));
      within = rw limit (within v.within);
    }

request_all-Inv :
    (now : Instant) (b : RemovalBudget) (log times : List Instant)
    → Inv now b log
    → IsRising now times
    → let (b', log') = request_all b log times in
      Inv (last_of now times) b' log' × (b'.limit ≡ b.limit) × (b'.window ≡ b.window)
unfolding request_all
request_all-Inv now b log [] v r = (v, refl, refl)
request_all-Inv now b log (at ∷ times) v (h, r) =
    let (limit, window, _, _) = reserve_lem at b in
    let (v', limit', window') =
      request_all-Inv at (reserve at b).0 _ times (reserve-Inv now at b log h v) r in
    (v', limit' ∙ limit, window' ∙ window)

-- From an empty budget, after any requests at times that do not run backwards, and at any moment
-- from the last of them on, the deletions that were granted in the window before that moment number
-- at most the limit.
pub request_all-le-limit :
    (limit : ℕ) (window : Duration) (times : List Instant) (t : Instant)
    → IsRising 0 times
    → last_of 0 times ≤ t
    → let b : RemovalBudget = record { limit = limit; window = window; taken = [] } in
      live_count t window (request_all b [] times).1 ≤ limit
request_all-le-limit limit window times t r l =
    let b : RemovalBudget = record { limit = limit; window = window; taken = [] } in
    let start : Inv 0 b [] = record { remembers = λ t l. refl; within = omega arith } in
    let (v, same, width) = request_all-Inv 0 b [] times start r in
    omega (
      arith,
      rw width at (v.remembers t l),
      v.within,
      same,
      live_count-le-length t window (request_all b [] times).0.taken,
    )
