-- ===== src/Worker/MediaBreaker/Scenarios.antt =====
-- The breaker at rest, and at its second trip.
use subsyncd.Worker.MediaBreaker.{Breaker, record_search_result}
use subsyncd.Worker.MediaBreaker.Pauses.{IsValid, lost, record_search_result-IsValid}
use subsyncd.Common.{true, ◌≡◌, ◌≤◌, refl, arith, inl}

abbrev at_rest : Breaker
at_rest = record { media_failures = 0; media_pause = 0; media_paused_until = 0 }

-- One dead file on a readable mount counts neither way.
dead_file_ignored :
    record_search_result 9
      (record { unavailable = true; missing = true; mount_readable = true })
      at_rest
    ≡ at_rest
unfolding record_search_result
dead_file_ignored = refl

record_search_result-IsValid_example :
    IsValid (record_search_result 9 lost at_rest)
    × ((record_search_result 9 lost at_rest).media_paused_until ≤ 2_000_000_000_000)
record_search_result-IsValid_example =
    record_search_result-IsValid 9 2_000_000_000_000 lost at_rest
      (record { counting = omega arith; length = inl refl }) (omega arith) (omega arith)
