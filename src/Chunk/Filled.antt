-- ===== src/Chunk/Filled.antt =====
-- src/chunk.rs: `ChunkPool::alloc_with_len`.
use paged_alloc.Chunk.Builder.{Chunk}
