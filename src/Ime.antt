-- ===== src/Ime.antt =====
-- firmware/core1/src/ime: the dictionary of the input method, on its way from flash to PSRAM.
pub mod Dict
mod Tests
