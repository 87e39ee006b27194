-- ===== src/Jitter.antt =====
-- osjitter.c: how much the operating system interrupts programs.
pub mod CpuSet
pub mod Args
pub mod Probe
pub mod Params
pub mod Measure
pub mod Sched
pub mod Results
pub mod Control
pub mod Start
mod Examples
mod ArgsExamples
