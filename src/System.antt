-- ===== src/System.antt =====
-- The program as a whole: what can happen to the world, one request or one task at a time.
pub mod Sound
pub mod Accounts
pub mod Tokens
pub mod Logs
pub mod Changes
pub mod JobRows
pub mod Jobs
pub mod JobActions
pub mod Steps
pub mod Creation
pub mod Reads
pub mod Sessions
pub mod Services
pub mod Tasks
pub mod Analysis
pub mod Cleaning
pub mod Requests
pub mod Routes
pub mod Seeding
pub mod Reachable
pub mod References
