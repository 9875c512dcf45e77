-- ===== src/Registry/Tests.antt =====
-- Concrete inputs for the theorems on RegistryServer.
mod Weights
mod Queries
mod Addresses
