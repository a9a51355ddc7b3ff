-- ===== src/Coordinator.antt =====
-- coordinator/coordinator.go, by parts.
pub mod Templates
pub mod Services
pub mod Sources
pub mod Registrations
pub mod Jobs
mod Tests
