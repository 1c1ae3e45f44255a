-- ===== src/Api.antt =====
-- The request handlers that combine the parts above with the repositories (web_ui/server/api), each for
-- a user who is logged in.
pub mod Submit
pub mod Callback
pub mod Access
pub mod Pipelines
pub mod DataFiles
pub mod Results
pub mod Catalogue
