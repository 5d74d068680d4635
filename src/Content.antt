-- ===== src/Content.antt =====
-- internal/content: slugs, the policy checks of the content service, and the snapshots that a
-- frontend synchronizes. Proofs about the grammar of slugs are in Content/Grammar.antt.
mod Identifier
pub mod Grammar
pub mod Service
pub mod Manifest
pub mod Registry
unfoldable pub use Identifier.*
