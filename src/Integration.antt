-- ===== src/Integration.antt =====
-- integration_state.py: which integrations a project has, and their settings.
pub mod State
mod Examples
