-- ===== src/Matcher.antt =====
-- backend/internal/matcher/similarity.go: the edit distance of two titles. Levenshtein has the code,
-- Scripts the edit scripts that it counts, Rows the proof that the two rows hold their least lengths.
pub mod Levenshtein
pub mod Scripts
pub mod Rows
mod Tests
