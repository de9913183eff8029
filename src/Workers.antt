-- ===== src/Workers.antt =====
-- internal/workers: pull-based execution. Workers advertise capacity, the broker leases them jobs.
pub mod Resources
pub mod Broker
mod Tests
