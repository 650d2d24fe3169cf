-- ===== src/Gnss.antt =====
-- firmware/core1/src/sensor/teseo_liv3fl.c: the GNSS receiver's stream of NMEA sentences.
pub mod Rate
pub mod Nmea
pub mod Line
pub mod Sats
pub mod Diagnostics
pub mod Parse
mod Tests
