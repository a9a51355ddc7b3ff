-- ===== src/Runner.antt =====
-- runner/: the jobs that fill the stores.
pub mod Chunks
pub mod Copy
pub mod Kubernetes
pub mod Materialize
pub mod Library
pub mod Watchers
mod Tests
