-- ===== src/Public.antt =====
-- The public pages: web/src/features/public.
pub mod Schedule
