-- ===== src/Web.antt =====
-- The state of the web client (web/src/lib): its data, the pure merges, the outbox of what is being
-- sent, the store and what its operations do around each wait for the server.
pub mod Types
pub mod Composer
pub mod Thread
pub mod Rows
pub mod Orders
pub mod State
pub mod Outbox
pub mod Lists
pub mod Events
pub mod Edits
mod Tests
mod ListTests
