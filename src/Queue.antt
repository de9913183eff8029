-- ===== src/Queue.antt =====
-- internal/queue: the merge queue, of which the circuit breaker, the order and priorities of queued
-- changes and the adaptive limits are modelled.
pub mod Circuit
pub mod Scheduling
pub mod Priorities
pub mod Adaptive
pub mod CheckSpec
pub mod Captured
pub mod CheckRun
mod Tests
