-- ===== src/Scoring.antt =====
-- Live scoring: web/src/features/scoring, web/src/features/referee, web/src/features/scorekeeper.
pub mod Match
pub mod Override
mod Samples
pub mod Socket
pub mod Actions
pub mod Keyboard
pub mod Console
pub mod Timeline
