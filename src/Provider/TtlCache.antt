-- ===== src/Provider/TtlCache.antt =====
-- internal/provider/ttlcache.go: the answers of providers that are kept in memory. Each critical
-- section under `mu` is one function; `now` is the reading of the clock in it. The map is a list of
-- entries, and `visit` is the order, which Go leaves open, in which a `range` comes by them.
mod Eviction
mod Freshness
mod Store
mod Calls
mod SingleFlight
mod Places
mod Wakeups
mod Scenarios
use subsyncd.Common.{
  Bool, List, ◌∷◌, keep, ◌-◌, ℕ, Option, some, suc, ◌||◌, none, ◌+◌, [], not, length, if◌then◌else◌,
  ltb, ◌==◌, false, zero, true,
}
use subsyncd.Common.Time.{Duration, Instant, before}
use subsyncd.Common.Text.{String, str_eq}

pub record Cached (V : Type 0) : Type 0 where
  pub key : String
  pub value : V
  pub stored : Instant

-- `inFlight` gives the channel of a key's fetch. Channels are numbered as they are made.
pub record TtlCache (V : Type 0) : Type 0 where
  pub ttl : Duration
  pub limit : ℕ
  pub entries : List (Cached V)
  pub in_flight : String → Option ℕ
  pub waiters : ℕ
  pub next_channel : ℕ
  pub closed : ℕ → Bool

-- `NewTTLCache`
abbrev pub new_ttl_cache : {V : Type 0} → Duration → ℕ → TtlCache V
new_ttl_cache ttl limit = record {
  ttl = ttl;
  limit = limit;
  entries = [];
  in_flight = λ _. none;
  waiters = 0;
  next_channel = 0;
  closed = λ _. false;
}

-- Where a call of `Load` stands: before its critical section, in its fetch, at the channel that it
-- waits for, or back at its caller with a value or an error.
pub data Phase (V : Type 0) : Type 0 where
  entering : String → Phase V
  fetching : String → ℕ → Phase V
  waiting : String → ℕ → Phase V
  returned : Option V → Phase V

-- What `fetch` gives: a value and whether it may be cached, or an error.
pub data Fetched (V : Type 0) : Type 0 where
  answer : V → Bool → Fetched V
  failed : Fetched V

module _ {V : Type 0} where
  abbrev pub has_key : String → Cached V → Bool
  has_key k e = str_eq e.key k

  -- `c.entries[key]` and `delete(c.entries, key)`
  abbrev pub find : String → List (Cached V) → Option (Cached V)
  find k [] = none
  find k (e ∷ es) = let rest = find k es in if has_key k e then some e else rest

  unfoldable pub remove : String → List (Cached V) → List (Cached V)
  remove k es = keep (λ e. not (has_key k e)) es

  -- `lookupLocked`
  unfoldable pub lookup_locked : TtlCache V → Instant → String → TtlCache V × Option V
  lookup_locked c now k = elim (find k c.entries) [
    | none ↦ (c, none)
    | some e ↦
        if not (before now (e.stored + c.ttl))
        then (record c { entries = remove k c.entries }, none)
        else (c, some e.value)
  ]

  -- The loop over the entries for the oldest, with `oldestKey` and `oldest`.
  unfoldable pub scan : String → Instant → List (Cached V) → String × Instant
  scan oldest_key oldest [] = (oldest_key, oldest)
  scan oldest_key oldest (e ∷ es) =
      let change = str_eq oldest_key "" || before e.stored oldest in
      scan (if change then e.key else oldest_key) (if change then e.stored else oldest) es

  module _ (visit : List (Cached V) → List (Cached V)) where
    -- The loop that evicts, on fuel: each turn deletes an entry, so their number is enough.
    unfoldable pub evict : ℕ → ℕ → Instant → List (Cached V) → List (Cached V)
    unfolding remove scan
    evict zero limit now es = es
    evict (suc n) limit now es =
        let rest = evict n limit now (remove (scan "" now (visit es)).0 es) in
        if ltb limit (length es) then rest else es

    -- `storeLocked`
    unfoldable pub store_locked : TtlCache V → Instant → String → V → TtlCache V
    unfolding evict
    store_locked c now k v =
        let es = record { key = k; value = v; stored = now } ∷ remove k c.entries in
        record c { entries = evict (length es) c.limit now es }

    -- `Load` after a miss: a caller joins the fetch of its key, or begins one.
    unfoldable pub register : TtlCache V → String → TtlCache V × Phase V
    register c k = elim (c.in_flight k) [
      | some d ↦ (record c { waiters = c.waiters + 1 }, waiting k d)
      | none ↦ (
        record c {
          in_flight = λ k'. if str_eq k' k then some c.next_channel else c.in_flight k';
          next_channel = c.next_channel + 1;
        },
        fetching k c.next_channel,
      )
    ]

    -- `Load` up to its fetch or its wait.
    unfoldable pub enter : TtlCache V → Instant → String → TtlCache V × Phase V
    unfolding lookup_locked register
    enter c now k =
        let (c', hit) = lookup_locked c now k in
        elim hit [ some v ↦ (c', returned (some v)) | none ↦ register c' k ]

    -- `if err == nil && cacheable`
    unfoldable pub keep_answer : TtlCache V → Instant → String → Fetched V → TtlCache V
    unfolding store_locked
    keep_answer c now k (answer v cacheable) = if cacheable then store_locked c now k v else c
    keep_answer c now k failed = c

    abbrev pub answer_of : Fetched V → Option V
    answer_of (answer v cacheable) = some v
    answer_of failed = none

    -- `Load` after its fetch.
    unfoldable pub complete : TtlCache V → Instant → String → ℕ → Fetched V → TtlCache V × Phase V
    unfolding keep_answer
    complete c now k d result =
        let c' = keep_answer c now k result in
        (
          record c' {
            in_flight = λ k'. if str_eq k' k then none else c'.in_flight k';
            closed = λ d'. if d' == d then true else c'.closed d';
          },
          returned (answer_of result),
        )

    -- `Load` after its wait; `ctx_done` is `ctx.Err() != nil`. The loop then starts again.
    unfoldable pub leave : TtlCache V → String → Bool → TtlCache V × Phase V
    leave c k ctx_done =
        (record c { waiters = c.waiters - 1 }, if ctx_done then returned none else entering k)

    -- `Get` and `Put`
    abbrev pub get : TtlCache V → Instant → String → TtlCache V × Option V
    get c now k = lookup_locked c now k

    abbrev pub put : TtlCache V → Instant → String → V → TtlCache V
    put c now k v = store_locked c now k v
