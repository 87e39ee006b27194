-- ===== src/Ptp.antt =====
-- ptp-clock-offset.c: how far the clock of a network card is from the system's clock, as measured in
-- several ways.
pub mod Clock
pub mod Error
pub mod Range
pub mod Offsets
pub mod Samples
pub mod Rounds
pub mod Truth
pub mod Device
pub mod Ids
mod Examples
