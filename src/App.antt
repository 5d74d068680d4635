-- ===== src/App.antt =====
-- internal/app/app.go: the application that a configuration gives (Wiring), and how it is served and
-- stopped (Serve).
pub mod Wiring
pub mod Limits
pub mod Serve
