-- ===== src/Visitor/Normalization.antt =====
-- internal/platform/visitor/identity.go: what of a user agent reaches the hash.
use portfolio_backend.Base.{ltb, if◌then◌else◌, ◌≤◌, ℕ, arith, length, take, length-take-le}
use portfolio_backend.Base.Text.{Text}
use portfolio_backend.Visitor.{normalize_user_agent, fields, join_fields, maximum_user_agent_bytes}

cut_at : (m : ℕ) (t : Text) → length (if ltb m (length t) then take m t else t) ≤ m
cut_at m t = ground (arith, length-take-le m t)

-- At most 512 bytes of a user agent are hashed, whatever its length.
pub length-normalize_user_agent :
    (value : Text) → length (normalize_user_agent value) ≤ maximum_user_agent_bytes
unfolding normalize_user_agent
length-normalize_user_agent value = cut_at maximum_user_agent_bytes (join_fields (fields value))
