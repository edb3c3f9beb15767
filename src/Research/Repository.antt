-- ===== src/Research/Repository.antt =====
-- backend/internal/research/postgres_repository.go: the research tables and the transactions on them.
pub mod Sql
pub mod Tables
pub mod Queries
pub mod Loads
pub mod Create
pub mod Owner
pub mod Lease
pub mod Recover
pub mod Complete
pub mod Writes
pub mod Slots
pub mod Acquire
pub mod Release
pub mod OwnerWrites
pub mod CreateWrites
pub mod LeaseWrites
pub mod Owners
pub mod CompleteWrites
pub mod Sorting
pub mod Fixed
pub mod RecoverWrites
pub mod Review
pub mod ReviewWrites
pub mod Calls
pub mod Reached
pub mod Budget
pub mod EventLog
pub mod Fence
pub mod Filed
pub mod Idempotent
pub mod LostRetry
pub mod StaleClaim
pub mod Samples
mod Tests
