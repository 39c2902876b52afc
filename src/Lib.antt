-- ===== src/Lib.antt =====
-- subsyncd watches a library of films and episodes that Sonarr and Radarr manage, searches several
-- subtitle providers for each language that is wanted, scores what they offer, installs the best
-- subtitle beside the media file, and later looks for a better one. This library models the logic
-- of the daemon's Go code under internal/ and proves properties of it.
--
-- The parts and how they interact. A worker (internal/worker) leases a search from the queue in the
-- store and runs it through the workflow (internal/workflow). The workflow asks the providers
-- (internal/provider), whose requests pass a gate that persists their limits, and whose answers are
-- cached in memory. Candidates are scored against the file (internal/match), and what is left is
-- downloaded, unpacked, timed and installed. The outcome is a completion, with the time of the next
-- attempt, that the scheduler (internal/schedule) computes. Notifications wait in an outbox. Beside
-- this, a breaker stops searches when the media mount seems lost, and a budget limits how many
-- replaced files are deleted.
--
-- Which file models what.
--   Common              lists, integers, text, time and floating point, shared by the rest
--   Store.Queue         internal/store/repository.go, search_claim.go, lease_release.go,
--                       upgrade_search.go, provider_resume.go, user_rejection.go, forget_instance.go
--                       and migrations/017_search_media_order.sql: the table search_states and the
--                       statements that write it
--   Store.Outbox        internal/store/repository.go, lease_release.go and forget_instance.go: the
--                       table notifications and the statements that write it
--   Provider.State      internal/store/repository.go: ProviderState, GetProviderState,
--                       PutProviderState; internal/provider/errors.go and provider.go: Operation
--   Provider.Gate       internal/provider/limiter.go: persist, RecordTransientFailure,
--                       ResetTransientFailures, checkState; availability.go: checkAvailability
--   Provider.TtlCache   internal/provider/ttlcache.go: TTLCache, Load, Get, Put
--   Schedule            internal/schedule/backoff.go and scheduler.go
--   Matching            internal/match/score.go, with the types of internal/domain and the Release
--                       of internal/match/release.go
--   Workflow.RemovalBudget  internal/workflow/removal_budget.go
--   Workflow.Upgrade    internal/workflow/upgrade.go, and the tier rules of provider_tiers.go
--   Workflow.Routes     internal/workflow/route_availability.go
--   Workflow.Numbering  internal/workflow/release_numbering.go
--   Packs.MovieVersions internal/pack/movie_versions.go: SelectMovieAlternatives
--   Worker.MediaBreaker internal/worker/media_breaker.go
--   Worker.RouteGate    internal/worker/route_gate.go: pausedRouteKeys
--
-- How state and operations correspond. A Go struct is a record with the fields that the modelled
-- code reads or writes, an enumeration is a data type, and an error is a value. A method that
-- changes its receiver gives the new state beside its result. What runs under a mutex is one
-- function, and concurrency is a sequence of such steps in any order: the gate's calls in
-- Provider.Gate.History, the calls of Load in Provider.TtlCache.Calls, and those of the store in
-- Store.Queue.History and Store.Outbox.Rows. The clock, random units, the answers of the database,
-- and the order in which Go visits a map are arguments.
--
-- A table is the list of its rows, a statement updates or deletes the rows that its WHERE selects or
-- inserts new ones, and a transaction that fails leaves the table as it was. The columns that a
-- trigger copies onto a new search, and the id that the database gives a new row, are arguments of
-- the insert.
--
-- Numbers. Times are nanoseconds since the zero time, so 0 is the zero time. Integers that may be
-- negative are the integers of Common.Int; Go's 64-bit range is not reached by the attempts,
-- points, years and episodes that they hold. Floating point is a record of operations with the
-- laws of rounding that the proofs use (Common.Float), and Common.Fixed is an instance of it with
-- decimal fractions. The only fuel is that of the loop that evicts from the cache: each turn deletes
-- an entry, so the number of entries is enough, and the bound on the size shows that it is.
--
-- What is not modelled. Transactions that write several tables (ReplaceTrackInventory,
-- SetInstanceQueuePriorities, ForgetInstance, RecordUserRejection, the media mutations) are
-- modelled by their statement on the table of searches or of notifications alone, as it runs once
-- the checks before it have passed; the schema's migrations of old rows, the JSON of the resumed
-- providers and that of the payloads are left out. The text functions of internal/match/release.go,
-- the parsing of language tags and the words of file names are arguments of the definitions that
-- use them. Adapters for the providers, the HTTP and control servers, the store's tables of media,
-- candidates, packs and installations, archives, timing with LAPSE, configuration and logging (but
-- for the events that modelled methods return) are left out.
pub mod Common
pub mod Provider
pub mod Schedule
pub mod Matching
pub mod Workflow
pub mod Worker
pub mod Packs
pub mod Store
