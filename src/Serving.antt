-- ===== src/Serving.antt =====
-- newserving/, by parts.
pub mod Values
pub mod Streams
mod Tests
