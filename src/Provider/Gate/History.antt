-- ===== src/Provider/Gate/History.antt =====
-- Any sequence of calls of the gate's three methods, with the clock and the database's answers.
use subsyncd.Common.Time.{Instant}
use subsyncd.Provider.State.{
  Rows, Faults, Operation, get_provider_state, ProviderState, put_provider_state, same_op, IsKeyed,
  put_provider_state-IsKeyed,
}
use subsyncd.Provider.Gate.{
  Throttle, persist, record_transient_failure, reset_transient_failures, merge_throttle,
  row_or_zero, bounded_reset, is_transient, max_provider_cooldown, merge_failure, transient_reason,
  circuit_reset, next_attempt, clear_failures,
}
use subsyncd.Common.{
  List, ◌∷◌, [], ◌≡◌, ◌≤◌, some, arith, ◌⊎◌, ◌+◌, true, Option-cases, Option, inl, false, inr,
  Bool-cases, ◌&&◌, subst,
}
use subsyncd.Common.Text.{String, str_eq}
use subsyncd.Provider.Gate.Circuit.{circuit_reset_bounds}

-- A call, with what the caller gives.
pub data Call : Type 0 where
  persists : Throttle → Call
  fails : String → Operation → String → Instant → Call
  succeeds : String → Operation → Call

-- When a call is made, and what the database answers to it.
pub record Turn : Type 0 where
  pub at : Instant
  pub faults : Faults
  pub call : Call

unfoldable pub step : Rows → Turn → Rows
step rows turn = elim turn.call [
  | persists t ↦ (persist turn.at turn.faults t rows).0
  | fails id op reason reset_at ↦
      (record_transient_failure turn.at turn.faults id op reason reset_at rows).0
  | succeeds id op ↦ (reset_transient_failures turn.faults id op rows).0
]

unfoldable pub run : Rows → List Turn → Rows
run rows [] = rows
run rows (turn ∷ turns) = run (step rows turn) turns

-- The state that a call writes, if it writes one.
abbrev Writes : Rows → Rows → ProviderState → Type 0
Writes rows rows' s = (rows' ≡ rows) ⊎ (rows' ≡ put_provider_state s rows)

written : Rows → Turn → ProviderState
written rows turn = elim turn.call [
  | persists t ↦
      merge_throttle turn.at (rows t.provider_id t.scope)
        (record t { reset_at = bounded_reset turn.at t.reset_at })
  | fails id op reason reset_at ↦
      let existing = row_or_zero (rows id op) in
      merge_failure turn.at id op (transient_reason reason)
        (circuit_reset turn.at reset_at (next_attempt existing)) existing
  | succeeds id op ↦ clear_failures (row_or_zero (rows id op))
]

step_for :
    (rows : Rows) (at : Instant) (faults : Faults) (call : Call)
    → let turn : Turn = record { at = at; faults = faults; call = call } in
      Writes rows (step rows turn) (written rows turn)
unfolding step written persist record_transient_failure reset_transient_failures get_provider_state
step_for rows at faults (persists t) = ground arith
step_for rows at faults (fails id op reason reset_at) = ground arith
step_for rows at faults (succeeds id op) = ground arith

-- What holds of every row: its reset lies no further ahead than the bound, and a disabled row does
-- not name a transient failure as its reason.
pub record IsSane (now : Instant) (s : ProviderState) : Type 0 where
  pub bounded : s.reset_at ≤ now + max_provider_cooldown
  pub honest : s.disabled ≡ true → is_transient s.reason ≡ false

abbrev pub AreSane : Instant → Rows → Type 0
AreSane now rows =
    (id : String) (op : Operation) (s : ProviderState) → rows id op ≡ some s → IsSane now s

-- A caller disables a provider for a reason of its own.
abbrev pub IsHonest : Call → Type 0
IsHonest (persists t) = t.disabled ≡ true → is_transient t.reason ≡ false
IsHonest _ = Unit {0}

-- Time does not run backwards, and callers are honest.
abbrev pub IsHistory : Instant → List Turn → Type 0
IsHistory now [] = Unit {0}
IsHistory now (turn ∷ turns) = (now ≤ turn.at) × IsHonest turn.call × IsHistory turn.at turns

row-IsSane :
    (now at : Instant) (rows : Rows) (id : String) (op : Operation)
    → AreSane now rows
    → now ≤ at
    → IsSane at (row_or_zero (rows id op))
row-IsSane now at rows id op h l = elim (Option-cases (rows id op)) [
  | inl e ↦ rw e (record { bounded = omega arith; honest = λ d. cc })
  | inr (s, e) ↦
      rw e (record { bounded = omega (arith, h id op s e); honest = (h id op s e).honest })
]

merge_throttle-IsSane :
    (at : Instant) (row : Option ProviderState) (t : Throttle)
    → IsSane at (row_or_zero row)
    → IsHonest (persists t)
    → IsSane at (merge_throttle at row (record t { reset_at = bounded_reset at t.reset_at }))
unfolding merge_throttle bounded_reset
merge_throttle-IsSane at row t h k = record { bounded = ground arith; honest = λ d. ground arith }

merge_failure-IsSane :
    (at : Instant) (id : String) (op : Operation) (reason : String) (until : Instant)
    (existing : ProviderState)
    → IsSane at existing
    → until ≤ at + max_provider_cooldown
    → IsSane at (merge_failure at id op reason until existing)
unfolding merge_failure
merge_failure-IsSane at id op reason until existing h l = record {
  bounded = ground arith;
  honest = λ d. ground arith;
}

clear_failures-IsSane :
    (at : Instant) (s : ProviderState) → IsSane at s → IsSane at (clear_failures s)
unfolding clear_failures
clear_failures-IsSane at s h = record { bounded = ground arith; honest = λ d. ground arith }

written-IsSane :
    (now at : Instant) (rows : Rows) (faults : Faults) (call : Call)
    → AreSane now rows
    → now ≤ at
    → IsHonest call
    → IsSane at (written rows (record { at = at; faults = faults; call = call }))
unfolding written
written-IsSane now at rows faults (persists t) h l k =
    merge_throttle-IsSane at (rows t.provider_id t.scope) t
      (row-IsSane now at rows t.provider_id t.scope h l) k
written-IsSane now at rows faults (fails id op reason reset_at) h l k =
    merge_failure-IsSane at id op (transient_reason reason) _ (row_or_zero (rows id op))
      (row-IsSane now at rows id op h l) (circuit_reset_bounds at reset_at _).1
written-IsSane now at rows faults (succeeds id op) h l k =
    clear_failures-IsSane at _ (row-IsSane now at rows id op h l)

pub put-AreSane :
    (at : Instant) (s : ProviderState) (rows : Rows)
    → IsSane at s
    → AreSane at rows
    → AreSane at (put_provider_state s rows)
unfolding put_provider_state
put-AreSane at s rows h k id op s' e =
    elim (Bool-cases (str_eq s.provider_id id && same_op s.scope op)) [
      | inl hit ↦ subst (IsSane at) (ground arith) h
      | inr miss ↦ k id op s' (ground arith)
    ]

later-AreSane : (now at : Instant) (rows : Rows) → now ≤ at → AreSane now rows → AreSane at rows
later-AreSane now at rows l h id op s e = record {
  bounded = omega (arith, h id op s e);
  honest = (h id op s e).honest;
}

step-AreSane :
    (now at : Instant) (rows : Rows) (faults : Faults) (call : Call)
    → AreSane now rows
    → now ≤ at
    → IsHonest call
    → AreSane at (step rows (record { at = at; faults = faults; call = call }))
step-AreSane now at rows faults call h l k = elim (step_for rows at faults call) [
  | inl same ↦ rw same (later-AreSane now at rows l h)
  | inr put ↦ rw put (
      put-AreSane at _ rows (written-IsSane now at rows faults call h l k)
        (later-AreSane now at rows l h))
]

-- The time of the last call.
abbrev pub last_at : Instant → List Turn → Instant
last_at now [] = now
last_at now (turn ∷ turns) = last_at turn.at turns

-- If the clock never runs backwards, and no call of `persist` disables a provider under the reason
-- of a transient failure, then after every sequence of calls and of database failures no row names a
-- reset more than 48 hours beyond the last call, and no row is disabled under such a reason, which a
-- later success would clear, provided that this held of the rows at first.
pub run-AreSane :
    (now : Instant) (rows : Rows) (turns : List Turn)
    → AreSane now rows
    → IsHistory now turns
    → AreSane (last_at now turns) (run rows turns)
unfolding run
run-AreSane now rows [] h k = h
run-AreSane now rows (turn ∷ turns) h (l, honest, rest) =
    run-AreSane turn.at (step rows turn) turns
      (step-AreSane now turn.at rows turn.faults turn.call h l honest) rest

pub step-IsKeyed : (rows : Rows) (turn : Turn) → IsKeyed rows → IsKeyed (step rows turn)
step-IsKeyed rows turn k = elim (step_for rows turn.at turn.faults turn.call) [
  | inl same ↦ rw same k
  | inr put ↦ rw put (put_provider_state-IsKeyed _ rows k)
]
