-- ===== src/Workflow/RemovalBudget/Slots.antt =====
-- `nextSlot` answers the first moment at which `reserve` would grant, and a release gives a
-- deletion back.
use subsyncd.Workflow.RemovalBudget.{
  scan, reserve, RemovalBudget, remove_first, Release, release, next_slot, live_at,
}
use subsyncd.Common.Time.{Instant, Duration, sub_ge, is_zero, before, sub_lt}
use subsyncd.Common.{
  List, ℕ, ◌<◌, ◌≡◌, ◌+◌, ◌≤◌, arith, ◌∷◌, [], ◌⊎◌, ◌∙◌, refl, inl, inr, if◌then◌else◌, ◌||◌,
  Option, ltb, ◌++◌, length, Bool, some, false, true, none, Bool-cases, leb, length-keep-le,
}
use subsyncd.Workflow.RemovalBudget.Window.{
  live_count, live_count-antitone, live_count-append, live_count-live_at,
}

-- One turn of the scan.
abbrev next_live : Instant → Duration → Instant → ℕ → ℕ
next_live now w at live = if sub_ge now at w then live else live + 1

abbrev next_oldest : Instant → Duration → Instant → Instant → Instant
next_oldest now w at oldest =
    if sub_ge now at w then oldest else if is_zero oldest || before at oldest then at else oldest

-- No deletion is logged at the zero time.
abbrev pub ArePositive : List Instant → Type 0
ArePositive [] = Unit {0}
ArePositive (at ∷ xs) = (0 < at) × ArePositive xs

-- The result of the scan is no later than where it starts, once that is set.
scan-le :
    (now : Instant) (w : Duration) (xs : List Instant) (live oldest : ℕ)
    → ArePositive xs
    → 0 < oldest
    → (scan now w xs live oldest).1 ≤ oldest
unfolding scan
scan-le now w [] live oldest p h = omega arith
scan-le now w (at ∷ xs) live oldest (q, p) h =
    let n = next_oldest now w at oldest in
    omega (arith, scan-le now w xs (next_live now w at live) n p (ground arith), step-le)
  where
    step-le : next_oldest now w at oldest ≤ oldest
    step-le = ground arith

scan-live :
    (now : Instant) (w : Duration) (xs : List Instant) (live oldest : ℕ)
    → (scan now w xs live oldest).0 ≡ live + live_count now w xs
unfolding scan
scan-live now w [] live oldest = omega arith
scan-live now w (at ∷ xs) live oldest =
    scan-live now w xs (next_live now w at live) (next_oldest now w at oldest) ∙ ground arith

-- Until the earliest deletion leaves the window, nothing does.
scan-lasts :
    (now u : Instant) (w : Duration) (xs : List Instant) (live oldest : ℕ)
    → ArePositive xs
    → now ≤ u
    → u < (scan now w xs live oldest).1 + w
    → live_count u w xs ≡ live_count now w xs
unfolding scan
scan-lasts now u w [] live oldest p l h = refl
scan-lasts now u w (at ∷ xs) live oldest (q, p) l h =
    let tail =
      scan-lasts now u w xs (next_live now w at live) (next_oldest now w at oldest) p l h in
    ground (arith, tail, scan-le now w xs (next_live now w at live) (next_oldest now w at oldest) p)

-- When it does, there is one fewer.
scan-frees :
    (now : Instant) (w : Duration) (xs : List Instant) (live oldest : ℕ)
    → ArePositive xs
    → let o = (scan now w xs live oldest).1 in
      (o ≡ oldest) ⊎ ((now < o + w) × (live_count (o + w) w xs + 1 ≤ live_count now w xs))
unfolding scan
scan-frees now w [] live oldest p = inl refl
scan-frees now w (at ∷ xs) live oldest (q, p) =
    elim (scan-frees now w xs (next_live now w at live) (next_oldest now w at oldest) p) [
      | inl e ↦ ground (arith, live_count-antitone now (at + w) w xs)
      | inr (l, f) ↦ ground (arith, l, f)
    ]

abbrev pub is_granted : Option Release → Bool
is_granted none = false
is_granted (some r) = true

-- A request is granted exactly when the window holds fewer deletions than the limit.
reserve-granted :
    (now : Instant) (b : RemovalBudget)
    → is_granted (reserve now b).1 ≡ ltb (live_count now b.window b.taken) b.limit
unfolding reserve
reserve-granted now b = ground arith

-- Unless nothing is in the window, the scan finds a deletion, at a time that is not zero.
scan-positive :
    (now : Instant) (w : Duration) (xs : List Instant) (live oldest : ℕ)
    → ArePositive xs
    → (0 < (scan now w xs live oldest).1) ⊎ ((oldest ≡ 0) × (live_count now w xs ≡ 0))
unfolding scan
scan-positive now w [] live oldest p = ground arith
scan-positive now w (at ∷ xs) live oldest (q, p) =
    ground (arith, scan-positive now w xs (next_live now w at live) (next_oldest now w at oldest) p)

next_slot_lem :
    (now : Instant) (b : RemovalBudget)
    → let o = (scan now b.window b.taken 0 0).1 in
      next_slot now b
      ≡ (if ltb (live_count now b.window b.taken) b.limit then now else o + b.window)
unfolding next_slot
next_slot_lem now b = ground (arith, scan-live now b.window b.taken 0 0)

-- `nextSlot` answers the first moment, from `now` on, at which `reserve` grants: at that moment it
-- does, and at none before it.
pub next_slot-first :
    (now : Instant) (b : RemovalBudget)
    → ArePositive b.taken
    → length b.taken ≤ b.limit
    → 0 < b.limit
    → (now ≤ next_slot now b)
      × (is_granted (reserve (next_slot now b) b).1 ≡ true)
      × ((u : Instant) → now ≤ u → u < next_slot now b → is_granted (reserve u b).1 ≡ false)
next_slot-first now b p h l = elim (Bool-cases (ltb (live_count now b.window b.taken) b.limit)) [
  | inl room ↦
      let at = next_slot_lem now b in
      let same : next_slot now b ≡ now = ground arith in
      rw same (omega arith, reserve-granted now b ∙ room, λ u h k. absurd (omega arith))
  | inr full ↦
      let o = (scan now b.window b.taken 0 0).1 in
      let same : next_slot now b ≡ o + b.window = ground (arith, next_slot_lem now b) in
      let frees = scan-frees now b.window b.taken 0 0 p in
      rw same (
        ground (arith, scan-positive now b.window b.taken 0 0 p),
        reserve-granted _ b
            ∙ ground (
              arith,
              scan-positive now b.window b.taken 0 0 p,
              scan-live now b.window b.taken 0 0,
              length-keep-le (λ (at : Instant). sub_lt now at b.window) b.taken,
            ),
        λ u h k. reserve-granted u b ∙ ground (arith, scan-lasts now u b.window b.taken 0 0 p h k),
      )
]

remove_first-append :
    (now t : Instant) (w : Duration) (xs : List Instant)
    → live_count t w (remove_first now (xs ++ now ∷ [])) ≡ live_count t w xs
unfolding remove_first
remove_first-append now t w [] = ground arith
remove_first-append now t w (at ∷ xs) =
    ground (arith, remove_first-append now t w xs, live_count-append t w xs (now ∷ []))

-- Giving a granted deletion back leaves, for every later moment, as many deletions in the window as
-- before it was taken, and giving it back twice is giving it back once.
pub release-reserve :
    (now t : Instant) (b b' : RemovalBudget) (r : Release)
    → reserve now b ≡ (b', some r)
    → now ≤ t
    → let (r', back) = release r b' in
      (live_count t back.window back.taken ≡ live_count t b.window b.taken)
      × (release r' back ≡ (r', back))
unfolding reserve release
release-reserve now t b b' r e l =
    elim (Bool-cases (leb b.limit (length (live_at now b.window b.taken)))) [
      | inl full ↦ absurd (ground arith)
      | inr room ↦
          let same : b' ≡ record b { taken = live_at now b.window b.taken ++ now ∷ [] } =
            ground arith in
          let first : Release = record { at = now; done = false } in
          let token : r ≡ first = ground arith in
          rw same (
            rw token (
              remove_first-append now t b.window (live_at now b.window b.taken)
                  ∙ live_count-live_at now t b.window b.taken l,
              refl,
            ))
    ]
