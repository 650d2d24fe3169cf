-- ===== src/Messages.antt =====
-- firmware/core1/src/messages: what core 1 keeps of the mesh, and what it sends to it.
pub mod Inbox
pub mod Send
pub mod Nodes
pub mod Status
mod Tests
