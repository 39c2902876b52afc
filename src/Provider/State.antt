-- ===== src/Provider/State.antt =====
-- The persisted state of a provider (internal/store/repository.go, ProviderState and its two
-- queries), the scopes it is kept for (internal/provider/provider.go) and the errors that the gate
-- returns (internal/provider/errors.go, availability.go).
use subsyncd.Common.{ℕ, ◌≡◌, ◌↔◌, Bool, true, false, ◌&&◌, Option, some, arith, if◌then◌else◌, ◌==◌}
use subsyncd.Common.Int.{ℤ, pos, is_nonpos}
use subsyncd.Common.Text.{String, str_eq, eq_iff}
use subsyncd.Common.Time.{Instant, after}

-- `Operation`, which is also the scope of a persisted state.
pub data Operation : Type 0 where
  all search download download_transfer auth : Operation

abbrev op_code : Operation → ℕ
op_code all = 0
op_code search = 1
op_code download = 2
op_code download_transfer = 3
op_code auth = 4

abbrev pub same_op : Operation → Operation → Bool
same_op a b = op_code a == op_code b

-- `FailureAttempt` is 0 or a count from 1.
pub record ProviderState : Type 0 where
  pub provider_id : String
  pub scope : Operation
  pub reason : String
  pub limit : ℤ
  pub remaining : ℤ
  pub reset_at : Instant
  pub disabled : Bool
  pub failure_attempt : ℕ

-- `ProviderState{}` but for its key.
abbrev pub empty_state : String → Operation → ProviderState
empty_state id op = record {
  provider_id = id;
  scope = op;
  reason = "";
  limit = pos 0;
  remaining = pos 0;
  reset_at = 0;
  disabled = false;
  failure_attempt = 0;
}

-- The table `provider_states`, by its primary key.
abbrev pub Rows : Type 0
Rows = String → Operation → Option ProviderState

-- `PutProviderState`: an upsert on (provider_id, scope).
unfoldable pub put_provider_state : ProviderState → Rows → Rows
put_provider_state s rows id op =
    if str_eq s.provider_id id && same_op s.scope op then some s else rows id op

-- Whether the database fails the read of a scope's row, and whether it fails a write.
pub record Faults : Type 0 where
  pub read_fails : Operation → Bool
  pub write_fails : Bool

abbrev pub no_faults : Faults
no_faults = record { read_fails = λ _. false; write_fails = false }

-- `suppressed` tells that persisted state blocked the request before it was sent.
pub data Failure : Type 0 where
  cooldown_error : String → Operation → String → Instant → Bool → Failure
  disabled_error : String → String → Bool → Failure
  availability_error : Failure
  context_error : Failure
  no_limiter : Failure

pub data Result {ℓ} (A : Type ℓ) : Type ℓ where
  ok : A → Result A
  err : Failure → Result A

-- `GetProviderState` behind `stateErrorStore`: a row, `sql.ErrNoRows`, or a wrapped failure.
unfoldable pub get_provider_state :
    Faults → Rows → String → Operation → Result (Option ProviderState)
get_provider_state f rows id op =
    if f.read_fails op then err availability_error else ok (rows id op)

-- What the gate tests as `state.Remaining <= 0 && state.ResetAt.After(now)`.
abbrev pub exhausted : Instant → ProviderState → Bool
exhausted now s = is_nonpos s.remaining && after s.reset_at now

pub get-put_self :
    (s : ProviderState) (rows : Rows) (id : String) (op : Operation)
    → s.provider_id ≡ id
    → s.scope ≡ op
    → put_provider_state s rows id op ≡ some s
unfolding put_provider_state
get-put_self s rows id op e e' = ground (arith, eq_iff s.provider_id id)

-- Two keys name one row exactly when the tests say so.
pub get-put_other :
    (s : ProviderState) (rows : Rows) (id : String) (op : Operation)
    → (str_eq s.provider_id id && same_op s.scope op) ≡ false
    → put_provider_state s rows id op ≡ rows id op
unfolding put_provider_state
get-put_other s rows id op h = ground arith

pub same_op_iff : (a b : Operation) → (same_op a b ≡ true) ↔ (a ≡ b)
same_op_iff a b = ground arith

-- Every row stands under its own key, as the primary key makes sure.
abbrev pub IsKeyed : Rows → Type 0
IsKeyed rows =
    (id : String) (op : Operation) (s : ProviderState)
    → rows id op ≡ some s
    → (s.provider_id ≡ id) × (s.scope ≡ op)

pub put_provider_state-IsKeyed :
    (s : ProviderState) (rows : Rows) → IsKeyed rows → IsKeyed (put_provider_state s rows)
unfolding put_provider_state
put_provider_state-IsKeyed s rows k id op s' e =
    ground (arith, eq_iff s.provider_id id, same_op_iff s.scope op, k id op s')
