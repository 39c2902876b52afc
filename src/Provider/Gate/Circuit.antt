-- ===== src/Provider/Gate/Circuit.antt =====
-- The circuit of transient failures: `RecordTransientFailure` opens it, each failure for longer,
-- and `ResetTransientFailures` closes it.
use subsyncd.Provider.Gate.{
  record_transient_failure, Event, circuit_reset, row_or_zero, merge_failure, transient_reason,
  next_attempt, max_provider_cooldown, transient_failure_delays, reset_transient_failures,
  check_state, explicit_cooldown, is_transient, clear_failures,
}
use subsyncd.Provider.State.{
  get_provider_state, Faults, Operation, Rows, ProviderState, ok, put_provider_state, exhausted,
  IsKeyed, no_faults, get-put_self,
}
use subsyncd.Common.Time.{Instant, minute, hour}
use subsyncd.Common.Text.{String}
use subsyncd.Common.{
  List, ◌≡◌, ◌<◌, ℕ, ◌≤◌, true, ◌⊎◌, ◌+◌, arith, get_or, some, Option-cases, false, Bool-cases, inl,
  min, suc, inr, ◌==◌, ◌-◌, refl, zero, ◌||◌, ap, ◌∙◌, dec_lt,
}
use subsyncd.Provider.Gate.Blocking.{is_none}
use subsyncd.Provider.Gate.Persist.{check_state-refuses}

-- A success of `RecordTransientFailure` wrote the state that it returns.
record-ok :
    (now : Instant) (f : Faults) (id : String) (op : Operation) (reason : String)
    (reset_at : Instant) (rows rows' : Rows) (state : ProviderState) (events : List Event)
    → record_transient_failure now f id op reason reset_at rows ≡ (rows', ok (state, events))
    → let existing = row_or_zero (rows id op) in
      (rows' ≡ put_provider_state state rows)
      × (state
          ≡ merge_failure now id op
              (transient_reason reason)
              (circuit_reset now reset_at (next_attempt existing))
              existing)
unfolding record_transient_failure get_provider_state
record-ok now f id op reason reset_at rows rows' state events h = (ground arith, ground arith)

-- The delays of the table lie between a minute and an hour.
ladder_bounds :
    (i : ℕ)
    → i ≤ 3
    → (minute ≤ get_or transient_failure_delays i 0) × (get_or transient_failure_delays i 0 ≤ hour)
ladder_bounds zero h = omega arith
ladder_bounds (suc zero) h = omega arith
ladder_bounds (suc (suc zero)) h = omega arith
ladder_bounds (suc (suc (suc zero))) h = omega arith
ladder_bounds (suc (suc (suc (suc i)))) h = absurd (omega arith)

pub circuit_reset_bounds :
    (now reset_at : Instant) (attempt : ℕ)
    → (now < circuit_reset now reset_at attempt)
      × (circuit_reset now reset_at attempt ≤ now + max_provider_cooldown)
unfolding circuit_reset
circuit_reset_bounds now reset_at attempt =
    let d = ladder_bounds (min (attempt - 1) 3) (omega arith) in (ground arith, ground arith)

merge_failure_lem :
    (now : Instant) (id : String) (op : Operation) (reason : String) (until : Instant)
    (existing : ProviderState)
    → now < until
    → let m = merge_failure now id op reason until existing in
      ((m.disabled ≡ true) ⊎ ((exhausted now m ≡ true) × (until ≤ m.reset_at)))
      × (m.failure_attempt ≡ existing.failure_attempt + 1)
unfolding merge_failure
merge_failure_lem now id op reason until existing h = (ground arith, ground arith)

pub merge_failure-key :
    (now : Instant) (id : String) (op : Operation) (reason : String) (until : Instant) (rows : Rows)
    → IsKeyed rows
    → let m = merge_failure now id op reason until (row_or_zero (rows id op)) in
      (m.provider_id ≡ id) × (m.scope ≡ op)
unfolding merge_failure
merge_failure-key now id op reason until rows k = elim (Option-cases (rows id op)) [
  | inl e ↦ ground arith
  | inr (s, e) ↦ ground (arith, k id op s e)
]

-- A recorded failure counts one more attempt in the row of its scope. The reset that is returned
-- lies ahead, unless the provider is disabled; and while the row stands, a request of that scope is
-- refused at every time before that reset, and at every time at all if the provider is disabled.
pub record_transient_failure-blocks :
    (now later : Instant) (f : Faults) (id : String) (op : Operation) (reason : String)
    (reset_at : Instant) (rows rows' : Rows) (state : ProviderState) (events : List Event)
    → IsKeyed rows
    → record_transient_failure now f id op reason reset_at rows ≡ (rows', ok (state, events))
    → (rows' id op ≡ some state)
      × (state.failure_attempt ≡ (row_or_zero (rows id op)).failure_attempt + 1)
      × ((state.disabled ≡ true) ⊎ (now < state.reset_at))
      × ((state.disabled ≡ false) × (state.reset_at ≤ later)
          ⊎ (is_none (check_state later no_faults rows' false id op) ≡ false))
record_transient_failure-blocks now later f id op reason reset_at rows rows' state events k h =
    let (written, made) = record-ok now f id op reason reset_at rows rows' state events h in
    let until = circuit_reset now reset_at (next_attempt (row_or_zero (rows id op))) in
    let ahead = circuit_reset_bounds now reset_at (next_attempt (row_or_zero (rows id op))) in
    let (blocks, counted) =
      merge_failure_lem now id op (transient_reason reason) until (row_or_zero (rows id op))
        ahead.0 in
    let (i, o) = merge_failure-key now id op (transient_reason reason) until rows k in
    let at : rows' id op ≡ some state =
      rw written (get-put_self state rows id op (rw made i) (rw made o)) in
    (
      at,
      rw made counted,
      rw made (ground arith),
      elim (Bool-cases state.disabled) [
        | inl d ↦ inr (check_state-refuses later rows' id op state at (inl d))
        | inr u ↦ elim (dec_lt later state.reset_at) [
          | yes l ↦ inr (check_state-refuses later rows' id op state at (ground arith))
          | no n ↦ inl (u, omega arith)
        ]
      ],
    )

clear_failures_lem :
    (now : Instant) (s : ProviderState)
    → let s' = clear_failures s in
      (s'.provider_id ≡ s.provider_id)
      × (s'.scope ≡ s.scope)
      × (s'.failure_attempt ≡ 0)
      × (explicit_cooldown now s' ≡ explicit_cooldown now s)
unfolding clear_failures
clear_failures_lem now s = (ground arith, ground arith, ground arith, ground arith)

-- A row whose reason is a transient failure loses its block, its reset and its reason.
clear_failures-lifts :
    (now : Instant) (s : ProviderState)
    → is_transient s.reason ≡ true
    → let s' = clear_failures s in
      (s'.disabled ≡ false) × (exhausted now s' ≡ false) × (s'.reset_at ≡ 0) × (s'.reason ≡ "")
unfolding clear_failures
clear_failures-lifts now s h = (ground arith, ground arith, ground arith, ground arith)

-- A row with another reason keeps everything but the count.
clear_failures-keeps :
    (s : ProviderState)
    → is_transient s.reason ≡ false
    → clear_failures s ≡ record s { failure_attempt = 0 }
unfolding clear_failures
clear_failures-keeps s h = ground arith

-- Closing the circuit of a row that counts failures forgets them. If its reason was a transient
-- failure, the provider is no longer disabled, nothing is exhausted, and reset and reason are
-- cleared; otherwise the row is as it was but for the count. A row that counts none is left alone.
-- Either way a limit that the provider gave stays as it was.
pub reset_transient_failures-closes :
    (now : Instant) (id : String) (op : Operation) (rows : Rows) (s : ProviderState)
    → IsKeyed rows
    → rows id op ≡ some s
    → (s' : ProviderState) × ((reset_transient_failures no_faults id op rows).0 id op ≡ some s')
      × (s'.failure_attempt ≡ 0)
      × (explicit_cooldown now s' ≡ explicit_cooldown now s)
      × ((s.failure_attempt ≡ 0)
          ⊎ (is_transient s.reason ≡ false)
          ⊎ (s'.disabled ≡ false)
            × (exhausted now s' ≡ false)
            × (s'.reset_at ≡ 0)
            × (s'.reason ≡ ""))
      × ((is_transient s.reason ≡ true) ⊎ (s' ≡ record s { failure_attempt = 0 }))
      × ((0 < s.failure_attempt) ⊎ (s' ≡ s))
unfolding reset_transient_failures get_provider_state
reset_transient_failures-closes now id op rows s k e = elim (Bool-cases (s.failure_attempt == 0)) [
  | inl z ↦
      let none_counted : s.failure_attempt ≡ 0 = ground arith in
      rw e (
        rw z (
          s,
          e,
          none_counted,
          refl,
          inl none_counted,
          inr (ap (λ (n : ℕ). record s { failure_attempt = n }) none_counted),
          inr refl,
        ))
  | inr n ↦ rw e (
      rw n (
        clear_failures s,
        get-put_self (clear_failures s) rows id op ((clear_failures_lem now s).0 ∙ (k id op s e).0)
            ((clear_failures_lem now s).1 ∙ (k id op s e).1),
        (clear_failures_lem now s).2,
        (clear_failures_lem now s).3,
        elim (Bool-cases (is_transient s.reason)) [
          | inl t ↦ inr (inr (clear_failures-lifts now s t))
          | inr u ↦ inr (inl u)
        ],
        elim (Bool-cases (is_transient s.reason)) [
          | inl t ↦ inl t
          | inr u ↦ inr (clear_failures-keeps s u)
        ],
        inl (ground arith),
      ))
]

-- The table after `RecordTransientFailure`, whatever the database answers.
pub record-rows :
    (now : Instant) (f : Faults) (id : String) (op : Operation) (reason : String)
    (reset_at : Instant) (rows : Rows)
    → let r = (record_transient_failure now f id op reason reset_at rows).0 in
      let existing = row_or_zero (rows id op) in
      (r ≡ rows)
      ⊎ (r
          ≡ put_provider_state
              (merge_failure now id op
                (transient_reason reason)
                (circuit_reset now reset_at (next_attempt existing))
                existing)
              rows)
unfolding record_transient_failure get_provider_state
record-rows now f id op reason reset_at rows = ground arith

-- The table after `ResetTransientFailures`, whatever the database answers.
pub reset-rows :
    (f : Faults) (id : String) (op : Operation) (rows : Rows)
    → ((reset_transient_failures f id op rows).0 ≡ rows)
      ⊎ ((s : ProviderState) × (rows id op ≡ some s)
          × ((reset_transient_failures f id op rows).0
              ≡ put_provider_state (clear_failures s) rows))
unfolding reset_transient_failures get_provider_state
reset-rows f id op rows = elim (Option-cases (rows id op)) [
  | inl e ↦ inl (ground arith)
  | inr (s, e) ↦ elim (Bool-cases (f.read_fails op || f.write_fails || (s.failure_attempt == 0))) [
    | inl b ↦ inl (ground arith)
    | inr b ↦ inr (s, e, ground arith)
  ]
]
