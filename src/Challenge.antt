-- ===== src/Challenge.antt =====
-- The investigation challenge of internal/database/questions.go: the questions with their
-- accepted answers, and the progress that is kept for each question.
pub mod Defs
pub mod Cooldown
pub mod Progress
pub mod Configure
pub mod State
pub mod Submit
mod Tests
