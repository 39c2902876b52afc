-- ===== src/Provider/Gate/Disabled.antt =====
-- A provider that was disabled for a reason other than a transient failure stays so: none of the
-- gate's methods lifts it.
use subsyncd.Common.Text.{String, str_eq, eq_iff}
use subsyncd.Provider.State.{
  ProviderState, Rows, Operation, IsKeyed, put_provider_state, same_op, same_op_iff, get-put_self,
  get-put_other, Faults,
}
use subsyncd.Provider.Gate.{
  merge_throttle, Throttle, merge_failure, reset_transient_failures, row_or_zero, is_transient,
  clear_failures, bounded_reset, transient_reason,
}
use subsyncd.Common.Time.{Instant}
use subsyncd.Common.{◌≡◌, some, true, Bool-cases, arith, ◌&&◌, inl, inr, false, List, ◌∷◌, []}
use subsyncd.Provider.Gate.Persist.{merge_throttle-key, persist-rows}
use subsyncd.Provider.Gate.History.{step, run, Call, persists, Turn, step-IsKeyed, fails, succeeds}
use subsyncd.Provider.Gate.Circuit.{merge_failure-key, reset-rows, record-rows}

-- The row of a scope is disabled, for a reason.
abbrev pub Off : String → String → Operation → Rows → Type 0
Off reason id op rows =
    (s : ProviderState) × (rows id op ≡ some s) × (s.disabled ≡ true) × (s.reason ≡ reason)

put-Off :
    (w : ProviderState) (rows : Rows) (reason id : String) (op : Operation)
    → Off reason id op rows
    → (w.provider_id ≡ id → w.scope ≡ op → (w.disabled ≡ true) × (w.reason ≡ reason))
    → Off reason id op (put_provider_state w rows)
put-Off w rows reason id op (s, e, d, r) h =
    elim (Bool-cases (str_eq w.provider_id id && same_op w.scope op)) [
      | inl hit ↦
          let i : w.provider_id ≡ id = ground (arith, eq_iff w.provider_id id) in
          let o : w.scope ≡ op = ground (arith, same_op_iff w.scope op) in
          (w, get-put_self w rows id op i o, (h i o).0, (h i o).1)
      | inr miss ↦ (s, rw (get-put_other w rows id op miss) e, d, r)
    ]

merge_throttle-Off :
    (now : Instant) (t : Throttle) (rows : Rows) (reason id : String) (op : Operation)
    → IsKeyed rows
    → Off reason id op rows
    → let m = merge_throttle now (rows t.provider_id t.scope) t in
      m.provider_id ≡ id → m.scope ≡ op → (m.disabled ≡ true) × (m.reason ≡ reason)
unfolding merge_throttle
merge_throttle-Off now t rows reason id op k (s, e, d, r) i o =
    let (i', o') = merge_throttle-key now t rows k in
    let at : rows t.provider_id t.scope ≡ some s = rw (← i', i, ← o', o) e in rw at (ground arith)

merge_failure-Off :
    (now : Instant) (id' : String) (op' : Operation) (why : String) (until : Instant) (rows : Rows)
    (reason id : String) (op : Operation)
    → IsKeyed rows
    → Off reason id op rows
    → let m = merge_failure now id' op' why until (row_or_zero (rows id' op')) in
      m.provider_id ≡ id → m.scope ≡ op → (m.disabled ≡ true) × (m.reason ≡ reason)
unfolding merge_failure
merge_failure-Off now id' op' why until rows reason id op k (s, e, d, r) i o =
    let (i', o') = merge_failure-key now id' op' why until rows k in
    let at : rows id' op' ≡ some s = rw (← i', i, ← o', o) e in rw at (ground arith)

clear_failures-Off :
    (rows : Rows) (s : ProviderState) (id' : String) (op' : Operation) (reason id : String)
    (op : Operation)
    → IsKeyed rows
    → is_transient reason ≡ false
    → Off reason id op rows
    → rows id' op' ≡ some s
    → (clear_failures s).provider_id ≡ id
    → (clear_failures s).scope ≡ op
    → ((clear_failures s).disabled ≡ true) × ((clear_failures s).reason ≡ reason)
unfolding clear_failures
clear_failures-Off rows s id' op' reason id op k n (r, e, d, w) es i o =
    let (i', o') = k id' op' s es in
    let same_id : id' ≡ id = ground arith in
    let same_scope : op' ≡ op = ground arith in
    let at : rows id op ≡ some s = rw (← same_id, ← same_scope) es in (ground arith, ground arith)

reset-Off :
    (f : Faults) (id' : String) (op' : Operation) (rows : Rows) (reason id : String)
    (op : Operation)
    → IsKeyed rows
    → is_transient reason ≡ false
    → Off reason id op rows
    → Off reason id op (reset_transient_failures f id' op' rows).0
reset-Off f id' op' rows reason id op k n h = elim (reset-rows f id' op' rows) [
  | inl same ↦ rw same h
  | inr (s, e, put) ↦ rw put (
      put-Off (clear_failures s) rows reason id op h
        (clear_failures-Off rows s id' op' reason id op k n h e))
]

step-Off :
    (at : Instant) (f : Faults) (call : Call) (rows : Rows) (reason id : String) (op : Operation)
    → IsKeyed rows
    → is_transient reason ≡ false
    → Off reason id op rows
    → Off reason id op (step rows (record { at = at; faults = f; call = call }))
unfolding step
step-Off at f (persists t) rows reason id op k n h = elim (persist-rows at f t rows) [
  | inl same ↦ rw same h
  | inr put ↦ rw put (
      put-Off _ rows reason id op h (
        merge_throttle-Off at (record t { reset_at = bounded_reset at t.reset_at }) rows reason id
          op k h))
]
step-Off at f (fails id' op' why reset_at) rows reason id op k n h =
    elim (record-rows at f id' op' why reset_at rows) [
      | inl same ↦ rw same h
      | inr put ↦ rw put (
          put-Off _ rows reason id op h
            (merge_failure-Off at id' op' (transient_reason why) _ rows reason id op k h))
    ]
step-Off at f (succeeds id' op') rows reason id op k n h =
    reset-Off f id' op' rows reason id op k n h

-- A provider that is disabled under a reason other than that of a transient failure stays disabled,
-- under the same reason, through every sequence of calls and of database failures on a table whose
-- rows stand under their keys: no cooldown, failure or success lifts it.
pub run-Off :
    (rows : Rows) (turns : List Turn) (reason id : String) (op : Operation)
    → IsKeyed rows
    → is_transient reason ≡ false
    → Off reason id op rows
    → Off reason id op (run rows turns)
unfolding run
run-Off rows [] reason id op k n h = h
run-Off rows (turn ∷ turns) reason id op k n h =
    run-Off (step rows turn) turns reason id op (step-IsKeyed rows turn k) n
      (step-Off turn.at turn.faults turn.call rows reason id op k n h)
