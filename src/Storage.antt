-- ===== src/Storage.antt =====
-- pkg/storage: the stores of the device API.
pub mod Fixtures
pub mod InMemory
pub mod FileStore
pub mod Interface
pub mod Refresh
