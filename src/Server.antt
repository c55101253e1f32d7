-- ===== src/Server.antt =====
-- src/server: the compilation server.
pub mod Parser
pub mod Reservations
pub mod Jobs
pub mod Threads
pub mod Reserving
pub mod Requests
pub mod Distribute
pub mod Query
pub mod Config
pub mod Main
