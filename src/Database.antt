-- ===== src/Database.antt =====
-- internal/database: the tables of PostgreSQL and the statements that the service runs on them.
pub mod Rows
pub mod Users
pub mod Shares
pub mod Access
pub mod Usage
pub mod Devices
pub mod Mailbox
pub mod Pairing
pub mod Settings
pub mod Agents
