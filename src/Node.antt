-- ===== src/Node.antt =====
-- NodeServer: the services of one machine, their state, and the limits on their restarts.
pub mod Activator
pub mod Commands
pub mod CoreLimit
pub mod Server
mod Tests
