-- ===== src/Api.antt =====
-- internal/api: the HTTP and WebSocket side of the service.
pub mod Identifier
pub mod Tunnel
mod Tests
pub mod Gateway
pub mod Connect
pub mod Http
pub mod Session
pub mod Accounts
pub mod Devices
pub mod Shares
pub mod Agents
pub mod Entry
