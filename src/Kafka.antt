-- ===== src/Kafka.antt =====
-- kafka/: events, topics, the publisher, the consumer and its tools.
pub mod Event
pub mod Envelope
pub mod Schema
pub mod Healthz
pub mod Registry
pub mod Publisher
pub mod Consumer
pub mod Dlq
pub mod Taxonomy
pub mod Replay
pub mod Listing
