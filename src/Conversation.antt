-- ===== src/Conversation.antt =====
-- app/conversations/service.py: `Context` is the short-term context of a conversation, `Bounds` its
-- limits, and `History` how the histories of server and client are merged.
pub mod Context
pub mod Bounds
pub mod History
mod Tests
