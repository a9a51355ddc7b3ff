-- ===== src/Provider/Offline.antt =====
-- provider/offline.go: the offline store that lives in memory.
pub mod Types
pub mod Table
pub mod Iterator
pub mod Store
mod Tests
