-- ===== src/Protocol.antt =====
-- The JSON-RPC connection and the server of internal/protocol.
pub mod Messages
pub mod Calls
pub mod Connection
pub mod Permission
pub mod Server
pub mod Sessions
pub mod Requests
pub mod Methods
pub mod Handler
