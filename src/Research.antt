-- ===== src/Research.antt =====
-- backend/internal/research: the research jobs. Types has the structs of types.go, State the
-- transitions and validations of state.go, Rollout the assignment of variants of rollout.go; Traces,
-- Degrade and Variants hold proofs.
pub mod Types
pub mod State
pub mod Rollout
pub mod Traces
pub mod Degrade
pub mod Variants
pub mod SafeText
pub mod Ranking
pub mod Ranked
pub mod Accepted
pub mod Payload
pub mod Baseline
pub mod TooMany
pub mod Repository
pub mod Worker
pub mod Backoff
pub mod WorkerSteps
pub mod WorkerFence
mod Tests
mod WorkerTests
mod PayloadTests
