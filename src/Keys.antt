-- ===== src/Keys.antt =====
-- firmware/core1/src/keypad: from the key matrix and the injection transports to the event queues.
pub mod Code
pub mod Queue
pub mod Event
pub mod Frame
pub mod Scan
pub mod Inject
mod Tests
