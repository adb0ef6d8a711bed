-- ===== src/Timetravel.antt =====
-- timetravel/: recording snapshots of entities, loading the one of a point in time, and their differences.
pub mod Recorder
pub mod Diff
pub mod KafkaRecorder
