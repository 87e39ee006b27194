-- ===== src/Util.antt =====
-- util.h and util.c: the helpers that all three programs share.
pub mod Sort
pub mod Percentile
pub mod Mad
pub mod Scale
pub mod Atoi
pub mod Khz
pub mod Perf
mod Examples
