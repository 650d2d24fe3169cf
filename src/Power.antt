-- ===== src/Power.antt =====
-- firmware/core1/src/power: the drivers of the power chips.
pub mod Lm27965
pub mod Bq25622
mod Tests
