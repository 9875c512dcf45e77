-- ===== src/Stat.antt =====
-- StatServer, which adds up what the services report of their calls.
pub mod Hash
pub mod Reports
mod Tests
