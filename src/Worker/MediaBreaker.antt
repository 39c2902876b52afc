-- ===== src/Worker/MediaBreaker.antt =====
-- internal/worker/media_breaker.go: searches that cannot read their media pause the queue. The
-- methods hold `breakerMu`; the probe of the mount (`mediaMountReadable`) asks the file system, and
-- its answer is an argument, as are the two classes of the search's error.
mod Pauses
mod Scenarios
use subsyncd.Common.{Bool, ℕ, if◌then◌else◌, ◌&&◌, not, ltb, ◌+◌, min, max, ◌*◌}
use subsyncd.Common.Time.{Duration, Instant, before, minute}

-- `mediaBreakerThreshold`, `mediaBreakerPause` and `mediaBreakerMaxPause`
abbrev pub media_breaker_threshold : ℕ
media_breaker_threshold = 3

abbrev pub media_breaker_pause : Duration
media_breaker_pause = minute

abbrev pub media_breaker_max_pause : Duration
media_breaker_max_pause = 1_800_000_000_000

pub record Breaker : Type 0 where
  pub media_failures : ℕ
  pub media_pause : Duration
  pub media_paused_until : Instant

-- What a search shows: `MediaUnavailable(err)`, `MediaMissing(err)`, and whether its mount is
-- readable.
pub record Outcome : Type 0 where
  pub unavailable : Bool
  pub missing : Bool
  pub mount_readable : Bool

-- `recordSearchResult`
unfoldable pub record_search_result : Instant → Outcome → Breaker → Breaker
record_search_result now o b =
    if o.unavailable && o.missing && o.mount_readable
    then b
    else if not o.unavailable
    then record b { media_failures = 0; media_pause = 0 }
    else if ltb (b.media_failures + 1) media_breaker_threshold
    then record b { media_failures = b.media_failures + 1 }
    else let pause = min (max (2 * b.media_pause) media_breaker_pause) media_breaker_max_pause in
      record { media_failures = 0; media_pause = pause; media_paused_until = now + pause }

-- `mediaPaused`
unfoldable pub media_paused : Instant → Breaker → Bool
media_paused now b = before now b.media_paused_until

-- `Snapshot`: when leasing resumes, or the zero time.
unfoldable pub snapshot : Instant → Breaker → Instant
snapshot now b = if before now b.media_paused_until then b.media_paused_until else 0
