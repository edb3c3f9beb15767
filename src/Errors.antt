-- ===== src/Errors.antt =====
-- backend/internal/errors: structured errors and the retry loops. AppError has errors.go, Retry the
-- loops and the classification of retry.go; Attempts proves what the loops do.
pub mod AppError
pub mod Retry
pub mod Attempts
mod Tests
