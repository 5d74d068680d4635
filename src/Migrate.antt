-- ===== src/Migrate.antt =====
-- internal/platform/migrate/migrate.go: the migration directory (Directory), the run on a database (Run)
-- and what it guarantees.
pub mod Directory
pub mod Sequence
pub mod Run
pub mod History
pub mod Reruns
pub mod Growth
