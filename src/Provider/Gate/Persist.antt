-- ===== src/Provider/Gate/Persist.antt =====
-- What `persist` leaves in the table and reports to its caller.
use subsyncd.Common.{
  ◌≡◌, ◌≤◌, ◌<◌, ◌⊎◌, inl, inr, true, false, Option, some, none, List, [], ◌∷◌, arith, Option-cases,
  ◌∙◌, refl,
}
use subsyncd.Common.Int.{is_nonpos}
use subsyncd.Common.Text.{String}
use subsyncd.Common.Time.{Instant}
use subsyncd.Provider.State.{
  Operation, all, auth, ProviderState, Rows, put_provider_state, Faults, no_faults, ok,
  get_provider_state, exhausted, IsKeyed, same_op, get-put_self,
}
use subsyncd.Provider.Gate.{
  Throttle, Event, bounded_reset, explicit_cooldown, merge_throttle, effective_reset, persist,
  check_state,
}
use subsyncd.Provider.Gate.Blocking.{is_none, check_availability_lem}

-- A success of `persist` wrote the merged state.
persist-ok :
    (now : Instant) (f : Faults) (t : Throttle) (rows rows' : Rows) (reset : Instant)
    (events : List Event)
    → persist now f t rows ≡ (rows', ok (reset, events))
    → let b = record t { reset_at = bounded_reset now t.reset_at } in
      let s = merge_throttle now (rows t.provider_id t.scope) b in
      (rows' ≡ put_provider_state s rows) × (reset ≡ effective_reset b s)
unfolding persist get_provider_state
persist-ok now f t rows rows' reset events h = ground arith

pub merge_throttle-key :
    (now : Instant) (t : Throttle) (rows : Rows)
    → IsKeyed rows
    → let s = merge_throttle now (rows t.provider_id t.scope) t in
      (s.provider_id ≡ t.provider_id) × (s.scope ≡ t.scope)
unfolding merge_throttle
merge_throttle-key now t rows k = elim (Option-cases (rows t.provider_id t.scope)) [
  | inl e ↦ ground arith
  | inr (s, e) ↦ ground (arith, k t.provider_id t.scope s e)
]

-- Where the merge finds an explicit cooldown, the cooldown stays or grows.
merge_throttle-stays :
    (now : Instant) (t : Throttle) (s : ProviderState)
    → explicit_cooldown now s ≡ true
    → t.disabled ≡ false
    → let m = merge_throttle now (some s) t in
      (is_nonpos m.remaining ≡ true) × (s.reset_at ≤ m.reset_at) × (m.disabled ≡ s.disabled)
unfolding merge_throttle
merge_throttle-stays now t s c d = (ground arith, ground arith, ground arith)

-- A table in which the row of a throttle still holds a cooldown as strict as `s`.
abbrev pub Keeps : ProviderState → Throttle → Rows → Type 0
Keeps s t rows =
    (s' : ProviderState) × (rows t.provider_id t.scope ≡ some s')
    × (is_nonpos s'.remaining ≡ true)
    × (s.reset_at ≤ s'.reset_at)
    × (s'.disabled ≡ s.disabled)

-- Whether the database answers a call of `persist`, and the table after it.
pub persist-rows :
    (now : Instant) (f : Faults) (t : Throttle) (rows : Rows)
    → ((persist now f t rows).0 ≡ rows)
      ⊎ ((persist now f t rows).0
          ≡ put_provider_state
              (merge_throttle now
                (rows t.provider_id t.scope)
                (record t { reset_at = bounded_reset now t.reset_at }))
              rows)
unfolding persist get_provider_state
persist-rows now f t rows = ground arith

put-Keeps :
    (now : Instant) (t : Throttle) (rows : Rows) (s : ProviderState)
    → IsKeyed rows
    → rows t.provider_id t.scope ≡ some s
    → explicit_cooldown now s ≡ true
    → t.disabled ≡ false
    → Keeps s t (put_provider_state (merge_throttle now (rows t.provider_id t.scope) t) rows)
put-Keeps now t rows s k e c d =
    let (id, scope) = merge_throttle-key now t rows k in
    let keeps = merge_throttle-stays now t s c d in
    (
      merge_throttle now (rows t.provider_id t.scope) t,
      get-put_self _ rows t.provider_id t.scope id scope,
      rw e keeps.0,
      rw e keeps.1,
      rw e keeps.2,
    )

-- An explicit cooldown in effect survives whatever another response reports: unless the throttle
-- disables the provider, the row still holds an exhausted limit whose reset is not earlier, and is
-- no more disabled than before; also when the database fails.
pub persist-Keeps :
    (now : Instant) (f : Faults) (t : Throttle) (rows : Rows) (s : ProviderState)
    → IsKeyed rows
    → rows t.provider_id t.scope ≡ some s
    → explicit_cooldown now s ≡ true
    → t.disabled ≡ false
    → Keeps s t (persist now f t rows).0
persist-Keeps now f t rows s k e c d = elim (persist-rows now f t rows) [
  | inl same ↦ rw same (s, e, ground arith, omega arith, refl)
  | inr put ↦ rw put (put-Keeps now _ rows s k e c d)
]

-- The merge of an exhausted limit disables, or blocks until the reset that `persist` reports.
merge_throttle-effective :
    (now : Instant) (t : Throttle) (row : Option ProviderState)
    → is_nonpos t.remaining ≡ true
    → let m = merge_throttle now row t in
      (m.disabled ≡ true) ⊎ ((is_nonpos m.remaining ≡ true) × (effective_reset t m ≤ m.reset_at))
unfolding merge_throttle effective_reset
merge_throttle-effective now t none e = ground arith
merge_throttle-effective now t (some s) e = ground arith

-- A row that is disabled or blocks at `later` refuses a request of its scope.
pub check_state-refuses :
    (later : Instant) (rows : Rows) (id : String) (op : Operation) (s : ProviderState)
    → rows id op ≡ some s
    → (s.disabled ≡ true) ⊎ (exhausted later s ≡ true)
    → is_none (check_state later no_faults rows false id op) ≡ false
unfolding check_state
check_state-refuses later rows id op s e h =
    (check_availability_lem later (same_op op auth) rows id (all ∷ auth ∷ op ∷ [])).0 ∙ ground arith

-- The reset that a successful `persist` of an exhausted limit reports is honoured: until then a
-- request of that scope is refused.
pub persist-blocks :
    (now later : Instant) (f : Faults) (t : Throttle) (rows rows' : Rows) (reset : Instant)
    (events : List Event)
    → IsKeyed rows
    → persist now f t rows ≡ (rows', ok (reset, events))
    → is_nonpos t.remaining ≡ true
    → later < reset
    → is_none (check_state later no_faults rows' false t.provider_id t.scope) ≡ false
persist-blocks now later f t rows rows' reset events k h e l =
    let (written, reported) = persist-ok now f t rows rows' reset events h in
    let b = record t { reset_at = bounded_reset now t.reset_at } in
    let m = merge_throttle now (rows t.provider_id t.scope) b in
    let (id, scope) = merge_throttle-key now b rows k in
    check_state-refuses later rows' t.provider_id t.scope m
      (rw written (get-put_self m rows t.provider_id t.scope id scope))
      (ground (arith, merge_throttle-effective now b (rows t.provider_id t.scope)))
