-- ===== src/Tests.antt =====
-- A concrete environment, and every theorem that has hypotheses applied in it.
mod Sample
mod Cleanup
mod Analysis
mod Requests
mod Settings
mod Seeding
mod Reach
mod Connections
mod Analytics
mod Sessions
mod Accounts
mod Ingest
mod Administration
