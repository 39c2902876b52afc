-- ===== src/Schedule/Delays.antt =====
-- The bounds of the delays, and how the missing schedule agrees with the reuse of provider answers.
use subsyncd.Common.Float.{Floats}
use subsyncd.Schedule.{
  missing_delay, resume_ttl, jittered, clamp_unit, missing, missing_intervals, aged,
  workflow_failure_delay, workflow_failure_delays,
}
use native.Mathlib.Nat.{le_refl}
use subsyncd.Common.{
  ◌≡◌, ℕ, false, ◌<◌, subst, ◌≤◌, get_or, ◌*◌, arith, ap, suc, ◌+◌, if◌then◌else◌, zero, leb, min,
  Bool-cases, ◌==◌, inl, ◌&&◌, inr, ltb, ℕ_discrete, refl, ◌∙◌,
}
use subsyncd.Common.Time.{Duration, Instant, hour}
use subsyncd.Common.Text.{String}
use subsyncd.Common.Int.{pos, ℤ, ◌≤ℤ◌, pos_part, negsuc, pos_part_mono}

-- The interval that a retry waits for after the given attempt, at least.
abbrev pub interval_of : ℕ → Duration
interval_of n = get_or missing_intervals (if leb 8 n then 7 else n) 0

interval_bounds : (n : ℕ) → 0 < n → (6 * hour ≤ interval_of n) × (interval_of n ≤ 336 * hour)
interval_bounds zero h = absurd (omega arith)
interval_bounds (suc zero) h = omega arith
interval_bounds (suc (suc zero)) h = omega arith
interval_bounds (suc (suc (suc zero))) h = omega arith
interval_bounds (suc (suc (suc (suc zero)))) h = omega arith
interval_bounds (suc (suc (suc (suc (suc zero))))) h = omega arith
interval_bounds (suc (suc (suc (suc (suc (suc zero)))))) h = omega arith
interval_bounds (suc (suc (suc (suc (suc (suc (suc zero))))))) h = omega arith
interval_bounds (suc (suc (suc (suc (suc (suc (suc (suc n)))))))) h = ground arith

-- The two ways in which the code bounds an index by the table.
index_lem : (n : ℕ) → get_or missing_intervals (min n 7) 0 ≡ interval_of n
index_lem n = ap (λ i. get_or missing_intervals i 0) (ground arith)

module _ (fl : Floats) where
  open fl use {F, of_ℕ, fifth, add, mul, lt, trunc}

  -- The factor of the jitter is at least one, and grows with the random unit.
  factor-ge-one : (u : F) → lt u (of_ℕ 0) ≡ false → lt (add (of_ℕ 1) (mul fifth u)) (of_ℕ 1) ≡ false
  factor-ge-one u h =
      subst (λ (x : F). lt (add (of_ℕ 1) (mul fifth u)) x ≡ false) (fl.add_zero (of_ℕ 1))
        (fl.add_mono (of_ℕ 1) (of_ℕ 0) (mul fifth u) (
          subst (λ (x : F). lt (mul fifth u) x ≡ false) (fl.mul_zero fifth)
            (fl.mul_mono fifth (of_ℕ 0) u fl.fifth_nonneg h)))

  pub jittered_bounds :
      (u : F) (d : Duration)
      → lt u (of_ℕ 0) ≡ false
      → lt (of_ℕ 1) u ≡ false
      → d ≤ 9_007_199_254_740_992
      → (d ≤ jittered fl u d) × (jittered fl u d ≤ jittered fl (of_ℕ 1) d)
  unfolding jittered
  jittered_bounds u d h k b =
      let nonneg = fl.of_ℕ-mono 0 d (omega arith) in
      let low =
        fl.trunc_mono _ _
          (fl.mul_mono (of_ℕ d) (of_ℕ 1) (add (of_ℕ 1) (mul fifth u)) nonneg (factor-ge-one u h)) in
      (
        omega (arith, low, ap trunc (fl.mul_one (of_ℕ d)), fl.trunc-of_ℕ d b),
        fl.trunc_mono _ _ (
            fl.mul_mono (of_ℕ d) _ _ nonneg
              (fl.add_mono (of_ℕ 1) _ _ (fl.mul_mono fifth u (of_ℕ 1) fl.fifth_nonneg k))),
      )

  clamp_unit_bounds :
      (u : F) → (lt (clamp_unit fl u) (of_ℕ 0) ≡ false) × (lt (of_ℕ 1) (clamp_unit fl u) ≡ false)
  clamp_unit_bounds u =
      ground (arith, fl.le_refl (of_ℕ 0), fl.le_refl (of_ℕ 1), fl.of_ℕ-mono 0 1 (omega arith))

  missing_delay_lem :
      (n : ℕ) (u : F)
      → 0 < n
      → missing_delay fl (pos n) u ≡ jittered fl (clamp_unit fl u) (interval_of n)
  unfolding missing_delay
  missing_delay_lem n u h = elim (Bool-cases (n == 0)) [
    | inl z ↦ absurd (ground arith)
    | inr nz ↦ rw nz
  ]

  -- After any attempt from the first on, whatever the random unit, the delay is the table's interval
  -- or longer, never under the six hours for which a search result is cached, and at most the
  -- interval with full jitter.
  pub missing_delay_bounds :
      (n : ℕ) (u : F)
      → 0 < n
      → (interval_of n ≤ missing_delay fl (pos n) u)
        × (6 * hour ≤ missing_delay fl (pos n) u)
        × (missing_delay fl (pos n) u ≤ jittered fl (of_ℕ 1) (interval_of n))
  missing_delay_bounds n u h =
      let (low, high) = clamp_unit_bounds u in
      let (six, most) = interval_bounds n h in
      let (above, below) =
        jittered_bounds (clamp_unit fl u) (interval_of n) low high (omega arith) in
      rw (missing_delay_lem n u h) (above, omega arith, below)

  -- A search that found nothing is retried no sooner than the answers of the providers that came
  -- back empty may be reused: the next attempt lies at least `ResumeTTL` ahead, for old and for new
  -- releases alike.
  pub resume_ttl-le-missing :
      (aged_after : Duration) (now : Instant) (u : F) (job_id : String) (attempt : ℕ)
      (released_at : Instant)
      → now + resume_ttl aged_after now attempt released_at
        ≤ (missing fl aged_after now u job_id (pos (attempt + 1)) released_at).next_attempt_at
  unfolding resume_ttl missing
  resume_ttl-le-missing aged_after now u job_id attempt released_at =
      elim (Bool-cases (aged aged_after released_at now && ltb (attempt + 1) 6)) [
        | inl early ↦ ground (arith, missing_delay_bounds 6 u (omega arith))
        | inr rest ↦
            ground
              (arith, missing_delay_bounds (attempt + 1) u (omega arith), index_lem (attempt + 1))
      ]

entry-suc :
    (i : ℕ) → i < 5 → get_or workflow_failure_delays i 0 ≤ get_or workflow_failure_delays (suc i) 0
entry-suc zero h = omega arith
entry-suc (suc zero) h = omega arith
entry-suc (suc (suc zero)) h = omega arith
entry-suc (suc (suc (suc zero))) h = omega arith
entry-suc (suc (suc (suc (suc zero)))) h = omega arith
entry-suc (suc (suc (suc (suc (suc i))))) h = absurd (omega arith)

entry_mono :
    (i j : ℕ)
    → i ≤ j
    → j ≤ 5
    → get_or workflow_failure_delays i 0 ≤ get_or workflow_failure_delays j 0
entry_mono zero zero h k = omega arith
entry_mono (suc i) zero h k = absurd (omega arith)
entry_mono i (suc j) h k = elim (ℕ_discrete i (suc j)) [
  | yes e ↦ rw e (le_refl _)
  | no ne ↦ omega (arith, entry-suc j (omega arith), entry_mono i j (omega arith) (omega arith))
]

workflow_failure_delay_lem :
    (n : ℤ) → workflow_failure_delay n ≡ get_or workflow_failure_delays (min (pos_part n) 5) 0
unfolding workflow_failure_delay
workflow_failure_delay_lem (negsuc n) = refl
workflow_failure_delay_lem (pos n) = ap (λ i. get_or workflow_failure_delays i 0) (ground arith)

-- The delay after a failed search: a minute at attempt 0 and at every negative one, then 5 minutes,
-- 15 minutes, an hour and 6 hours, and 24 hours from attempt 5 on; and it is never shorter for a
-- later attempt.
pub workflow_failure_delay_mono :
    (m n : ℤ) (k : ℕ)
    → m ≤ℤ n
    → (workflow_failure_delay m ≤ workflow_failure_delay n)
      × (workflow_failure_delay (negsuc k) ≡ 60 * 1_000_000_000)
      × (workflow_failure_delay (pos 0) ≡ 60 * 1_000_000_000)
      × (workflow_failure_delay (pos 1) ≡ 5 * 60 * 1_000_000_000)
      × (workflow_failure_delay (pos 2) ≡ 15 * 60 * 1_000_000_000)
      × (workflow_failure_delay (pos 3) ≡ 60 * 60 * 1_000_000_000)
      × (workflow_failure_delay (pos 4) ≡ 6 * 60 * 60 * 1_000_000_000)
      × (workflow_failure_delay (pos (5 + k)) ≡ 24 * 60 * 60 * 1_000_000_000)
workflow_failure_delay_mono m n k h =
    let i = min (pos_part m) 5 in
    let j = min (pos_part n) 5 in
    let ordered : pos_part m ≤ pos_part n = pos_part_mono m n h in
    let last : min (5 + k) 5 ≡ 5 = omega arith in
    let delay = workflow_failure_delay_lem in
    (
      omega (arith, delay m, delay n, entry_mono i j (omega arith) (omega arith)),
      delay (negsuc k),
      delay (pos 0),
      delay (pos 1),
      delay (pos 2),
      delay (pos 3),
      delay (pos 4),
      delay (pos (5 + k)) ∙ ap (λ i. get_or workflow_failure_delays i 0) last,
    )
