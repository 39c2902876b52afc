-- ===== src/Store/Queue.antt =====
-- internal/store/repository.go, search_claim.go, lease_release.go, upgrade_search.go,
-- provider_resume.go, user_rejection.go, forget_instance.go: the queue of searches. A statement or a transaction is
-- one function on the table; an error of the database, which leaves the table as it was, is left
-- out.
pub mod Rows
pub mod Changes
pub mod Resume
pub mod Leases
pub mod Due
pub mod Grants
pub mod Completion
mod Shape
mod Inserts
mod Keeps
pub mod Inventory
pub mod History
mod TableChanges
mod TableLeases
mod TableInventory
mod HeldInventory
mod Tables
mod Holding
mod HeldChanges
mod HeldLeases
mod Exclusion
mod Places
mod Reruns
mod Order
mod Owners
mod Lock
mod LockRows
mod LockClaims
mod Refinement
mod Carried
mod Ranking
mod Counts
mod Granting
mod Selection
mod Scenarios
