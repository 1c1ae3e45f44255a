-- ===== src/Repositories.antt =====
-- The repositories of the web UI (web_ui/server/db): tables of rows, each with an owner and a share
-- table.
pub mod Database
pub mod Acl
pub mod Runs
pub mod Pipelines
pub mod DataFiles
pub mod Blocks
