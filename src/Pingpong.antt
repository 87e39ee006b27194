-- ===== src/Pingpong.antt =====
-- pingpong.c: the ping pong between two threads.
pub mod Args
pub mod Worker
pub mod Null
pub mod Spin
pub mod Futex
pub mod Semaphore
pub mod Rally
pub mod Pipe
pub mod Condvar
pub mod Results
pub mod Control
mod Examples
