-- ===== src/Kafka.antt =====
-- app/integrations/kafka_pipeline.py: the offsets that the consumer commits, what becomes of an event
-- whose handler fails, and the keys of an event.
pub mod Tracker
pub mod Advance
pub mod Committed
pub mod Stalled
pub mod Failure
pub mod Journey
pub mod Serial
pub mod Event
pub mod Keys
mod Tests
