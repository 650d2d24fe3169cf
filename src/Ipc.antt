-- ===== src/Ipc.antt =====
-- firmware/shared/ipc: the message rings between the two cores.
pub mod Ring
mod Tests
