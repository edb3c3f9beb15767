-- ===== src/Download.antt =====
-- backend/internal/download: the jobs that fetch tracks. Job has job.go, Update and Queue the jobs and the work
-- list in Redis of queue.go, Worker the processing of one job of worker.go; the other modules hold
-- proofs and tests.
pub mod Job
pub mod Update
pub mod Queue
pub mod Retry
pub mod Worker
pub mod Reliable
pub mod Outcome
pub mod Entries
pub mod Requeue
pub mod Order
pub mod Backoff
mod Tests
