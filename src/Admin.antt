-- ===== src/Admin.antt =====
-- AdminRegistryServer: the lists of tasks that the registry executes on the services, and the connections
-- of the nodes.
pub mod ExecuteTask
pub mod Tasks
pub mod Nodes
mod TaskTests
mod NodeTests
mod Tests
