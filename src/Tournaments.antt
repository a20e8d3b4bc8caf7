-- ===== src/Tournaments.antt =====
-- The tournaments: web/src/features/tournaments.
pub mod Seeds
pub mod Bracket
pub mod Draft
pub mod WizardState
pub mod Wizard
