-- ===== src/Provider.antt =====
-- provider/: the stores that hold features, labels and training sets.
pub mod Offline
pub mod Online
