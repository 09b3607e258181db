-- ===== src/Coherence.antt =====
-- The coherence protocol: messages, the per-block agents of the caches, and the directory.
pub mod Message
pub mod Agent
pub mod Lls
pub mod Directory
pub mod MiSystem
pub mod Adapter
pub mod Ring
