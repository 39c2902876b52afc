-- ===== src/Provider/TtlCache/Scenarios.antt =====
-- A cache with room for two answers, and three calls of `Load` that want one key.
use subsyncd.Provider.TtlCache.{
  lookup_locked, get, TtlCache, store_locked, find, Cached, enter, put, Phase, new_ttl_cache, leave,
  entering, waiting,
}
use subsyncd.Common.{
  List, ◌-◌, any, ◌≡◌, map, ◌≤◌, ◌+◌, ℕ, arith, none, true, ◌∷◌, some, refl, ◌*◌, [], ◌<◌,
  get_elem?, false,
}
use subsyncd.Common.Text.{String}
use subsyncd.Common.Time.{Instant, hour}
use subsyncd.Provider.TtlCache.Freshness.{IsCache}
use subsyncd.Provider.TtlCache.SingleFlight.{IsSingle, run-IsSingle}
use subsyncd.Provider.TtlCache.Eviction.{IsVisit}
use subsyncd.Provider.TtlCache.Calls.{run, Move, enters, leaves}
use subsyncd.Provider.TtlCache.Store.{
  store_locked-IsCache, store_locked-oldest, lookup_locked-drops, put-get, lookup_locked-fresh,
}
use subsyncd.Provider.TtlCache.Wakeups.{fetches_on, run-wakes}

abbrev as_listed : List (Cached ℕ) → List (Cached ℕ)
as_listed es = es

as_listed-IsVisit : IsVisit as_listed
as_listed-IsVisit = record { any-visit = λ p es. refl }

abbrev noon : Instant
noon = 1_000_000_000_000

abbrev entry : String → ℕ → Instant → Cached ℕ
entry k v t = record { key = k; value = v; stored = t }

abbrev two_answers : TtlCache ℕ
two_answers = record (new_ttl_cache (6 * hour) 2) {
  entries = entry "lost" 4 (noon - 5) ∷ entry "dark" 7 (noon - 9) ∷ [];
}

two_answers-IsCache : IsCache two_answers
two_answers-IsCache = record { distinct = refl; named = refl; bounded = omega arith }

-- The third answer displaces the oldest.
third_stored :
    map (λ (e : Cached ℕ). e.key) (put as_listed two_answers noon "fargo" 1).entries
    ≡ "fargo" ∷ "lost" ∷ []
unfolding store_locked
third_stored = refl

store_locked-IsCache_example : IsCache (store_locked as_listed two_answers noon "fargo" 1)
store_locked-IsCache_example =
    store_locked-IsCache as_listed as_listed-IsVisit two_answers noon "fargo" 1 two_answers-IsCache
      refl

dark_evicted : find "dark" (store_locked as_listed two_answers noon "fargo" 1).entries ≡ none
unfolding store_locked
dark_evicted = refl

lost_kept :
    find "lost" (store_locked as_listed two_answers noon "fargo" 1).entries
    ≡ some (entry "lost" 4 (noon - 5))
unfolding store_locked
lost_kept = refl

store_locked-oldest_example : noon - 9 ≤ noon - 5
store_locked-oldest_example =
    store_locked-oldest as_listed as_listed-IsVisit two_answers noon "fargo" "dark" "lost" 1
      (entry "dark" 7 (noon - 9)) (entry "lost" 4 (noon - 5)) two_answers-IsCache refl refl refl
      dark_evicted lost_kept

put-get_example :
    (get as_listed (put as_listed two_answers noon "fargo" 1) (noon + hour) "fargo").1 ≡ some 1
put-get_example =
    put-get as_listed as_listed-IsVisit two_answers noon (noon + hour) "fargo" 1 two_answers-IsCache
      refl (omega arith) refl (omega arith)

dark_found : (lookup_locked two_answers noon "dark").1 ≡ some 7
unfolding lookup_locked
dark_found = refl

lookup_locked-fresh_example :
    (e : Cached ℕ) × (find "dark" two_answers.entries ≡ some e)
    × (e.value ≡ 7)
    × (noon < e.stored + two_answers.ttl)
    × ((lookup_locked two_answers noon "dark").0 ≡ two_answers)
lookup_locked-fresh_example = lookup_locked-fresh two_answers noon "dark" 7 dark_found

dark_expired : (lookup_locked two_answers (noon + 7 * hour) "dark").1 ≡ none
unfolding lookup_locked
dark_expired = refl

lookup_locked-drops_example :
    (find "dark" (lookup_locked two_answers (noon + 7 * hour) "dark").0.entries ≡ none)
    × (find "lost" (lookup_locked two_answers (noon + 7 * hour) "dark").0.entries
        ≡ find "lost" two_answers.entries)
lookup_locked-drops_example =
    lookup_locked-drops two_answers (noon + 7 * hour) "dark" "lost" dark_expired refl

-- The first call fetches; the second waits for it, and the third leaves, its context done.
abbrev three_calls : List (Phase ℕ)
three_calls = entering "fargo" ∷ entering "fargo" ∷ entering "fargo" ∷ []

abbrev some_moves : List (ℕ × Move ℕ)
some_moves =
    (0, enters noon)
    ∷ (1, enters noon)
    ∷ (2, enters noon)
    ∷ (2, leaves true)
    ∷ (1, leaves false)
    ∷ []

three_calls-IsSingle : IsSingle two_answers three_calls
three_calls-IsSingle = record { single = λ k. refl; counted = refl }

run-IsSingle_example :
    IsSingle
      (run as_listed two_answers three_calls some_moves).0
      (run as_listed two_answers three_calls some_moves).1
run-IsSingle_example =
    run-IsSingle as_listed two_answers three_calls some_moves three_calls-IsSingle

second_waits :
    get_elem? (run as_listed two_answers three_calls some_moves).1 1 ≡ some (waiting "fargo" 0)
unfolding run enter leave
second_waits = refl

channel_open : (run as_listed two_answers three_calls some_moves).0.closed 0 ≡ false
unfolding run enter leave
channel_open = refl

run-wakes_example :
    any (fetches_on "fargo" 0) (run as_listed two_answers three_calls some_moves).1 ≡ true
run-wakes_example =
    run-wakes as_listed two_answers three_calls some_moves 1 "fargo" 0 three_calls-IsSingle refl
      second_waits channel_open
