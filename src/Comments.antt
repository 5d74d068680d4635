-- ===== src/Comments.antt =====
-- internal/comments: the comment service, moderation, and their PostgreSQL store.
pub mod Store
pub mod Service
