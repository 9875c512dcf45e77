-- ===== src/Property.antt =====
-- PropertyServer, which merges the properties that the services report.
pub mod Hash
mod Tests
