-- ===== src/Core.antt =====
-- internal/core: the data that the queue, the deploy lanes and the workers exchange, and the
-- daemon-wide execution slots.
pub mod Types
pub mod Job
pub mod Slots
pub mod Tests
