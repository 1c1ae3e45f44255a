-- ===== src/Validate.antt =====
-- The pipeline validator, web_ui/utils/validate.ts.
pub mod Cycle
pub mod Checks
pub mod Spec
pub mod Structure
pub mod ManifestChecks
pub mod Correct
