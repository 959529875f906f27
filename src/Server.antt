-- ===== src/Server.antt =====
-- The server side, Server/ of the repository.
pub mod OpenSsl
pub mod Config
pub mod FileConfig
pub mod PgConfig
pub mod MemoryConfig
pub mod ControlServer
pub mod Hash
pub mod RestreamServer
pub mod ServerMain
pub mod Examples
