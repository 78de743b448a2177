-- ===== src/Server.antt =====
-- pkg/server: the command handler and the connection handler.
pub mod World
pub mod Directory
pub mod Transfer
pub mod Handlers
pub mod Loop
pub mod Connection
pub mod Setup
pub mod System
