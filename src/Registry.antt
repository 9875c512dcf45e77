-- ===== src/Registry.antt =====
-- RegistryServer: the name service. Weights of load balancing, caches, and the queries that clients make.
pub mod Endpoint
pub mod Balance
pub mod Ip
pub mod Groups
pub mod Cache
pub mod Query
mod Tests
