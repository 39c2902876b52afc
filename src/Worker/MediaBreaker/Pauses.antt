-- ===== src/Worker/MediaBreaker/Pauses.antt =====
-- How long the breaker pauses the queue, and what ends it.
use subsyncd.Common.{
  List, ℕ, true, ◌≤◌, ◌<◌, ◌∷◌, [], false, suc, ◌+◌, ◌≡◌, min, ◌⊎◌, arith, ◌*◌, ◌^◌, zero, length,
}
use subsyncd.Worker.MediaBreaker.{
  record_search_result, Outcome, Breaker, media_breaker_threshold, media_breaker_max_pause,
  media_breaker_pause,
}
use subsyncd.Common.Time.{Instant, Duration}

-- What a search shows that read its media, and what one shows whose storage is gone.
abbrev pub lost : Outcome
lost = record { unavailable = true; missing = false; mount_readable = false }

-- What holds of the breaker between two searches.
pub record IsValid (b : Breaker) : Type 0 where
  pub counting : b.media_failures < media_breaker_threshold
  pub length :
      (b.media_pause ≡ 0)
      ⊎ ((media_breaker_pause ≤ b.media_pause) × (b.media_pause ≤ media_breaker_max_pause))

-- Every search keeps the count below the threshold and the pause zero or between its two bounds;
-- and the queue is paused for at most the longest pause beyond the search.
pub record_search_result-IsValid :
    (now bound : Instant) (o : Outcome) (b : Breaker)
    → IsValid b
    → b.media_paused_until ≤ bound
    → now + media_breaker_max_pause ≤ bound
    → IsValid (record_search_result now o b)
      × ((record_search_result now o b).media_paused_until ≤ bound)
unfolding record_search_result
record_search_result-IsValid now bound o b v h l = (ground arith, ground arith)

-- The pause after `n` trips in a row: it doubles from the first up to the longest.
abbrev pub ladder : ℕ → Duration
ladder zero = 0
ladder (suc n) = min (media_breaker_pause * 2 ^ n) media_breaker_max_pause

-- The moments of three searches in a row.
abbrev pub Trip : Type 0
Trip = Instant × Instant × Instant

-- Searches that all fail for a lost mount, three for each trip.
pub lost_at : List Trip → Breaker → Breaker
lost_at [] b = b
lost_at ((t, u, v) ∷ trips) b =
    lost_at trips
      (record_search_result v lost (record_search_result u lost (record_search_result t lost b)))

abbrev last_trip : Instant → List Trip → Instant
last_trip now [] = now
last_trip now ((t, u, v) ∷ trips) = last_trip v trips
