-- ===== src/PlayQueue.antt =====
-- backend/internal/queue/queue.go: the playback queue of one user, kept in Redis as one value.
-- Types has the structs, Edit the pure work on a loaded queue, Service the methods with their Redis
-- traffic; the other modules hold proofs and tests.
pub mod Types
pub mod Edit
pub mod Service
pub mod Splice
pub mod Insert
pub mod Recalculate
pub mod Current
pub mod Remove
pub mod Move
pub mod Consistent
pub mod Kept
pub mod Stored
pub mod ById
pub mod Intent
pub mod Next
mod Tests
mod ServiceTests
