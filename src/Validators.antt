-- ===== src/Validators.antt =====
-- backend/internal/validators: which addresses are media of a known platform. Youtube is youtube.go,
-- Registry the list of validators of registry.go; Canonical holds proofs.
pub mod Youtube
pub mod Registry
pub mod Canonical
mod Tests
