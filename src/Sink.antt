-- ===== src/Sink.antt =====
-- infrastructure/sinks/: the stream of chunks that the worker writes and the results read.
pub mod Redis
pub mod Emit
pub mod Read
pub mod Laws
