-- ===== src/Examples.antt =====
-- Concrete libraries, and the theorems applied to them.
pub mod Memory
pub mod Trees
pub mod Data
pub mod Sessions
pub mod Masters
pub mod Services
pub mod Pools
pub mod Orders
pub mod Areas
pub mod Logs
pub mod Bots
pub mod Algorithms
pub mod Clients
pub mod Configs
pub mod Rates
pub mod Visits
pub mod Startups
pub mod Transferring
pub mod Threading
pub mod Products
pub mod Refinement
pub mod Trades
