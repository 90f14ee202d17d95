-- ===== src/Kafka.antt =====
-- crates/kafka: the Kafka backend of `wasi-messaging`.
pub mod Tracker
pub mod Registry
pub mod Lanes
