-- ===== src/Overlay.antt =====
-- The overlay: web/src/features/overlay.
pub mod Contract
pub mod Overrides
pub mod Fade
pub mod Sources
pub mod Debounce
pub mod Elements
pub mod Theme
pub mod Result
pub mod Sponsors
pub mod Triggers
pub mod Channels
pub mod Tv
