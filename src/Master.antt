-- ===== src/Master.antt =====
-- The master data handlers of src/redis/redis_source.hpp, the {KV_MF} records: areas, languages, ships,
-- the general ones and roles. Handlers that differ in their texts alone share a loop.
pub mod Common
pub mod Create
pub mod Fetch
pub mod Remove
pub mod Isolation
pub mod ReadOnly
pub mod Listed
pub mod Rewritten
pub mod Batch
