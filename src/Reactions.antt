-- ===== src/Reactions.antt =====
-- internal/reactions: likes, views and stats, over their stores, and the PostgreSQL stores
-- themselves.
pub mod Services
pub mod Store
pub mod Likes
pub mod Views
pub mod Totals
