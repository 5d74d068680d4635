-- ===== src/Examples.antt =====
-- Concrete runs, and instances of the theorems at them.
mod Limiting
mod Contents
mod Commenting
mod Syncing
mod Reacting
mod Routing
mod Authenticating
mod Configuring
mod Migrating
mod Serving
mod Paging
mod Smoke
