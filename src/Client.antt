-- ===== src/Client.antt =====
-- src/client: the compiler wrapper.
pub mod Parser
pub mod Command
pub mod Sending
pub mod Input
pub mod Database
pub mod Registry
pub mod Factory
pub mod Config
pub mod Main
