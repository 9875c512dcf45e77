-- ===== src/Log.antt =====
-- LogServer: the logs of calls become traces, and the traces graphs of calls.
pub mod Trace
pub mod Aggregation
pub mod Graph
mod Tests
