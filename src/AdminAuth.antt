-- ===== src/AdminAuth.antt =====
-- internal/adminauth: Access assertions (Verifier) and the cache of the keys that sign them (Keys).
pub mod Claims
pub mod Keys
pub mod Verifier
