-- ===== src/Common.antt =====
-- src/common: the code that the client and the server share.
pub mod Constants
pub mod Status
pub mod Compression
pub mod Process
pub mod ScopeGuard
pub mod Arguments
pub mod Tempfile
pub mod Logging
