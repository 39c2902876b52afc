-- ===== src/Schedule/Scenarios.antt =====
-- The schedule's theorems with decimal fractions for floating point.
use subsyncd.Common.{◌*◌, ◌+◌, ◌≤◌, arith, ◌≡◌, refl}
use subsyncd.Common.Time.{Instant, hour}
use subsyncd.Schedule.{missing_delay, resume_ttl, missing, workflow_failure_delay, jittered}
use subsyncd.Common.Fixed.{fixed_point}
use subsyncd.Common.Int.{negsuc, pos}
use subsyncd.Schedule.Delays.{
  workflow_failure_delay_mono, resume_ttl-le-missing, missing_delay_bounds,
}

abbrev noon : Instant
noon = 1_000_000_000_000_000_000

-- The second retry, with half of the jitter: twelve hours and a tenth (less the digits dropped).
second_retry : missing_delay fixed_point (pos 3) 5 ≡ 47_520_000_000_000
unfolding missing_delay
second_retry = refl

missing_delay_bounds_example :
    (12 * hour ≤ missing_delay fixed_point (pos 3) 5)
    × (6 * hour ≤ missing_delay fixed_point (pos 3) 5)
    × (missing_delay fixed_point (pos 3) 5 ≤ jittered fixed_point 10 (12 * hour))
missing_delay_bounds_example = missing_delay_bounds fixed_point 3 5 (omega arith)

resume_ttl-le-missing_example :
    noon + resume_ttl hour noon 1 5
    ≤ (missing fixed_point hour noon 7 "job" (pos 2) 5).next_attempt_at
resume_ttl-le-missing_example = resume_ttl-le-missing fixed_point hour noon 7 "job" 1 5

workflow_failure_delay_mono_example :
    (workflow_failure_delay (negsuc 2) ≤ workflow_failure_delay (pos 4))
    × (workflow_failure_delay (negsuc 7) ≡ 60 * 1_000_000_000)
    × (workflow_failure_delay (pos 0) ≡ 60 * 1_000_000_000)
    × (workflow_failure_delay (pos 1) ≡ 5 * 60 * 1_000_000_000)
    × (workflow_failure_delay (pos 2) ≡ 15 * 60 * 1_000_000_000)
    × (workflow_failure_delay (pos 3) ≡ 60 * 60 * 1_000_000_000)
    × (workflow_failure_delay (pos 4) ≡ 6 * 60 * 60 * 1_000_000_000)
    × (workflow_failure_delay (pos 12) ≡ 24 * 60 * 60 * 1_000_000_000)
workflow_failure_delay_mono_example = workflow_failure_delay_mono (negsuc 2) (pos 4) 7 (omega arith)
