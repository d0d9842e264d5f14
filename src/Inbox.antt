-- ===== src/Inbox.antt =====
-- The inbox: pages of conversations and of messages, the edits of a conversation and its tags
-- (src/inbox).
pub mod Pages
pub mod Tags
pub mod Search
pub mod Listing
pub mod Edits
mod Tests
