-- ===== src/Metadata.antt =====
-- metadata/: the metadata service.
pub mod Types
pub mod Names
pub mod Keys
pub mod Messages
pub mod Resources
pub mod Resource
pub mod Lookup
pub mod Server
pub mod Handlers
pub mod Etcd
pub mod Client
pub mod Samples
mod Tests
