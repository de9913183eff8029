-- ===== src/Config.antt =====
-- internal/config: the check spec of a repository, its validation, and the selection of deploy nodes.
pub mod Checks
mod Tests
