-- ===== src/Files.antt =====
-- src/collaboration/transfer/http_server.rs: the server from which devices fetch files.
pub mod Limiter
pub mod Cors
pub mod Range
pub mod Serve
pub mod Server
pub mod Request
pub mod Rate
pub mod Served
pub mod Headers
pub mod Paths
pub mod Origins
pub mod Tests
