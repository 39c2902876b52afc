-- ===== src/Provider/Gate/Blocking.antt =====
-- What `checkAvailability` answers, against a description of the rows that it reads.
use subsyncd.Common.{
  ◌≡◌, max, Bool, true, false, not, ◌&&◌, ◌||◌, Option, none, some, List, [], ◌∷◌, arith,
  if◌then◌else◌, inl, inr, Option-cases, Bool-cases,
}
use subsyncd.Common.Text.{String}
use subsyncd.Common.Time.{Instant}
use subsyncd.Provider.State.{
  Operation, auth, same_op, ProviderState, Rows, no_faults, Failure, cooldown_error, disabled_error,
  get_provider_state, exhausted,
}
use subsyncd.Provider.Gate.{Blocked, note_cooldown, check_scopes, check_availability}

abbrev pub is_none {ℓ} : {A : Type ℓ} → Option A → Bool
is_none none = true
is_none (some x) = false

abbrev pub is_disabled_error : Option Failure → Bool
is_disabled_error (some (disabled_error id reason suppressed)) = true
is_disabled_error _ = false

-- The reset of a cooldown error, and 0 for every other answer.
abbrev pub reported_reset : Option Failure → Instant
reported_reset (some (cooldown_error id scope reason reset suppressed)) = reset
reported_reset _ = 0

-- Whether a scope's cooldown counts: that of `auth` only where the caller asks for it.
abbrev pub counts : Bool → Operation → Bool
counts include_auth scope = not (same_op scope auth) || include_auth

abbrev pub row_disabled : Option ProviderState → Bool
row_disabled none = false
row_disabled (some s) = s.disabled

-- The reset up to which a row blocks, and 0 if it does not.
abbrev pub row_reset : Instant → Bool → Operation → Option ProviderState → Instant
row_reset now include_auth scope none = 0
row_reset now include_auth scope (some s) =
    if counts include_auth scope && exhausted now s then s.reset_at else 0

abbrev pub row_blocks : Instant → Bool → Operation → Option ProviderState → Bool
row_blocks now include_auth scope none = false
row_blocks now include_auth scope (some s) = counts include_auth scope && exhausted now s

abbrev pub any_disabled : Rows → String → List Operation → Bool
any_disabled rows id [] = false
any_disabled rows id (scope ∷ scopes) = row_disabled (rows id scope) || any_disabled rows id scopes

abbrev pub any_blocks : Instant → Bool → Rows → String → List Operation → Bool
any_blocks now inc rows id [] = false
any_blocks now inc rows id (scope ∷ scopes) =
    row_blocks now inc scope (rows id scope) || any_blocks now inc rows id scopes

-- The latest reset among the rows that block.
abbrev pub latest_reset : Instant → Bool → Rows → String → List Operation → Instant
latest_reset now inc rows id [] = 0
latest_reset now inc rows id (scope ∷ scopes) =
    max (row_reset now inc scope (rows id scope)) (latest_reset now inc rows id scopes)

abbrev blocked_reset : Blocked → Instant
blocked_reset none = 0
blocked_reset (some (scope, reason, reset)) = reset

note_cooldown_lem :
    (now : Instant) (inc : Bool) (scope : Operation) (s : ProviderState) (b : Blocked)
    → (is_none (note_cooldown now inc scope s b)
        ≡ (is_none b && not (row_blocks now inc scope (some s))))
      × (blocked_reset (note_cooldown now inc scope s b)
          ≡ max (blocked_reset b) (row_reset now inc scope (some s)))
unfolding note_cooldown
note_cooldown_lem now inc scope s none = (ground arith, ground arith)
note_cooldown_lem now inc scope s (some (o, r, latest)) = (ground arith, ground arith)

-- The three parts of the answer, for a loop that has found `b` so far.
record Answer (now : Instant) (inc : Bool) (rows : Rows) (id : String) (scopes : List Operation)
    (b : Blocked) (answer : Option Failure) : Type 0 where
  disabled : is_disabled_error answer ≡ any_disabled rows id scopes
  nil :
      is_none answer
      ≡ (is_none b && not (any_blocks now inc rows id scopes) && not (any_disabled rows id scopes))
  reset :
      any_disabled rows id scopes ≡ false
      → reported_reset answer ≡ max (blocked_reset b) (latest_reset now inc rows id scopes)

module _ (now : Instant) (inc : Bool) (rows : Rows) (id : String) (scope : Operation)
    (scopes : List Operation) (b : Blocked) where
  check_skip :
      rows id scope ≡ none
      → check_scopes now no_faults rows id inc (scope ∷ scopes) b
        ≡ check_scopes now no_faults rows id inc scopes b
  unfolding check_scopes get_provider_state
  check_skip e = rw e

  check_stop :
      (s : ProviderState)
      → rows id scope ≡ some s
      → s.disabled ≡ true
      → check_scopes now no_faults rows id inc (scope ∷ scopes) b
        ≡ some (disabled_error id s.reason true)
  unfolding check_scopes get_provider_state
  check_stop s e d = rw e (rw d)

  check_note :
      (s : ProviderState)
      → rows id scope ≡ some s
      → s.disabled ≡ false
      → check_scopes now no_faults rows id inc (scope ∷ scopes) b
        ≡ check_scopes now no_faults rows id inc scopes (note_cooldown now inc scope s b)
  unfolding check_scopes get_provider_state
  check_note s e d = rw e (rw d)

  Answer-skip :
      (a : Option Failure)
      → rows id scope ≡ none
      → Answer now inc rows id scopes b a
      → Answer now inc rows id (scope ∷ scopes) b a
  Answer-skip a e h = ground arith

  Answer-stop :
      (s : ProviderState)
      → rows id scope ≡ some s
      → s.disabled ≡ true
      → Answer now inc rows id (scope ∷ scopes) b (some (disabled_error id s.reason true))
  Answer-stop s e d = ground arith

  Answer-note :
      (s : ProviderState) (a : Option Failure)
      → rows id scope ≡ some s
      → s.disabled ≡ false
      → Answer now inc rows id scopes (note_cooldown now inc scope s b) a
      → Answer now inc rows id (scope ∷ scopes) b a
  Answer-note s a e d h = record {
    disabled = ground arith;
    nil = ground (arith, note_cooldown_lem now inc scope s b);
    reset = λ k. ground (arith, note_cooldown_lem now inc scope s b);
  }

check_scopes-Answer :
    (now : Instant) (inc : Bool) (rows : Rows) (id : String) (scopes : List Operation) (b : Blocked)
    → Answer now inc rows id scopes b (check_scopes now no_faults rows id inc scopes b)
unfolding check_scopes
check_scopes-Answer now inc rows id [] none = ground arith
check_scopes-Answer now inc rows id [] (some (o, r, t)) = ground arith
check_scopes-Answer now inc rows id (scope ∷ scopes) b = elim (Option-cases (rows id scope)) [
  | inl e ↦ rw (check_skip now inc rows id scope scopes b e) (
      Answer-skip now inc rows id scope scopes b _ e (check_scopes-Answer now inc rows id scopes b))
  | inr (s, e) ↦ elim (Bool-cases s.disabled) [
    | inl d ↦
        rw (check_stop now inc rows id scope scopes b s e d)
          (Answer-stop now inc rows id scope scopes b s e d)
    | inr d ↦ rw (check_note now inc rows id scope scopes b s e d) (
        Answer-note now inc rows id scope scopes b s _ e d
          (check_scopes-Answer now inc rows id scopes (note_cooldown now inc scope s b)))
  ]
]

-- With a readable table and a live context, the check is nil exactly when none of the scopes is
-- disabled and none blocks; it reports a disabled provider exactly when a scope is disabled; and
-- otherwise a cooldown it reports ends at the latest reset among the scopes that block.
pub check_availability_lem :
    (now : Instant) (include_auth : Bool) (rows : Rows) (id : String) (scopes : List Operation)
    → let answer = check_availability now no_faults rows false id include_auth scopes in
      (is_none answer
        ≡ (not (any_blocks now include_auth rows id scopes) && not (any_disabled rows id scopes)))
      × (is_disabled_error answer ≡ any_disabled rows id scopes)
      × (any_disabled rows id scopes ≡ false
          → reported_reset answer ≡ latest_reset now include_auth rows id scopes)
unfolding check_availability
check_availability_lem now inc rows id scopes =
    let a = check_scopes-Answer now inc rows id scopes none in
    (a.nil, a.disabled, λ h. omega (arith, a.reset h))
