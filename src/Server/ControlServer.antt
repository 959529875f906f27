-- ===== src/Server/ControlServer.antt =====
-- Server/ControlServer: the contexts of the devices (Sessions), the sessions of their connections
-- (ServerSession), and the requests of the restream server (Server).
pub mod Sessions
pub mod Protocol
pub mod ServerSession
pub mod Requests
pub mod SecureContext
pub mod Renewal
pub mod Links
pub mod Safety
pub mod Events
pub mod Refused
pub mod Restore
pub mod Streams
