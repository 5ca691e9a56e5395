-- ===== src/Chunk/Others.antt =====
-- src/chunk.rs: what `allocate_aligned` leaves of the buffers that others hold.
use mathlib.Core.List
use paged_alloc.Base.{List}
use paged_alloc.Chunk.Kept.{Kept}
