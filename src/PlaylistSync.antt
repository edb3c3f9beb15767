-- ===== src/PlaylistSync.antt =====
-- backend/internal/playlistsync: snapshots of a provider playlist and the plan that reconciles the
-- stored membership with one. Types has types.go, Reconcile the pure planning of reconciler.go and
-- Reconciler its method over an adapter and a store; the other modules hold proofs and tests.
pub mod Types
pub mod Reconcile
pub mod Duplicates
pub mod Mappings
pub mod Plan
pub mod Effect
pub mod Counts
pub mod Reconciler
pub mod Outcome
mod Tests
