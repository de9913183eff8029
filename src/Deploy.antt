-- ===== src/Deploy.antt =====
-- internal/deploy: the lanes that carry a landed revision to an environment.
pub mod Graph
pub mod Plan
pub mod Tests
