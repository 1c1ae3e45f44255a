-- ===== src/Tests.antt =====
-- The library at concrete inputs: runs of the code, and the theorems applied.
pub mod Validation
pub mod Codes
pub mod Connections
pub mod Access
pub mod RunRows
pub mod Submission
pub mod Building
pub mod Handlers
pub mod Contexts
pub mod Editor
pub mod Joined
pub mod Called
