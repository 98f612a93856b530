-- ===== src/Repositories.antt =====
-- app/repositories: the statements that each repository sends, on the session's tables.
pub mod Users
pub mod RefreshTokens
pub mod Jobs
pub mod ErrorGroups
pub mod Logs
pub mod Analyses
