-- ===== src/Provider/TtlCache/Calls.antt =====
-- Many calls of `Load` at once: their critical sections in any order, with any outcomes.
use subsyncd.Common.Text.{String, str_eq}
use subsyncd.Common.{
  List, Bool, Option, ℕ, true, some, ◌∷◌, false, suc, ◌+◌, none, [], zero, if◌then◌else◌, ◌||◌,
}
use subsyncd.Provider.TtlCache.{
  Phase, Cached, Fetched, TtlCache, fetching, waiting, enter, complete, leave, entering,
}
use subsyncd.Common.Time.{Instant}

-- One call's next critical section: with the clock's reading, the result of its fetch, or whether
-- its context is done.
pub data Move (V : Type 0) : Type 0 where
  enters : Instant → Move V
  completes : Instant → Fetched V → Move V
  leaves : Bool → Move V

module _ {V : Type 0} (visit : List (Cached V) → List (Cached V)) where
  -- What a call does on its turn. A call that is not at that section stays as it is, and so does
  -- one that waits while its channel is open and its context is not done.
  unfoldable pub advance : TtlCache V → Phase V → Move V → TtlCache V × Phase V
  unfolding enter complete leave
  advance c (entering k) (enters now) = enter visit c now k
  advance c (fetching k d) (completes now result) = complete visit c now k d result
  advance c (waiting k d) (leaves ctx_done) =
      if c.closed d || ctx_done then leave visit c k ctx_done else (c, waiting k d)
  advance c phase move = (c, phase)

  -- The turn of the call at an index.
  unfoldable pub turn : TtlCache V → List (Phase V) → ℕ → Move V → TtlCache V × List (Phase V)
  unfolding advance
  turn c [] i move = (c, [])
  turn c (p ∷ ps) zero move = let (c', p') = advance c p move in (c', p' ∷ ps)
  turn c (p ∷ ps) (suc i) move = let (c', ps') = turn c ps i move in (c', p ∷ ps')

  unfoldable pub run : TtlCache V → List (Phase V) → List (ℕ × Move V) → TtlCache V × List (Phase V)
  unfolding turn
  run c ps [] = (c, ps)
  run c ps ((i, move) ∷ moves) = let (c', ps') = turn c ps i move in run c' ps' moves

-- How many calls fetch a key, and how many wait.
abbrev pub bit : Bool → ℕ
bit true = 1
bit false = 0

abbrev pub fetches : {V : Type 0} → String → Phase V → ℕ
fetches k (fetching k' d) = bit (str_eq k k')
fetches k _ = 0

abbrev pub waits : {V : Type 0} → Phase V → ℕ
waits (waiting k d) = 1
waits _ = 0

abbrev pub sum_of : {V : Type 0} → (Phase V → ℕ) → List (Phase V) → ℕ
sum_of f [] = 0
sum_of f (p ∷ ps) = f p + sum_of f ps

-- 1 where a key is in flight, and otherwise 0.
abbrev pub flights : Option ℕ → ℕ
flights none = 0
flights (some d) = 1
