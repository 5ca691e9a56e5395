-- ===== src/Chunk/Copied.antt =====
-- src/chunk.rs: `ChunkPool::alloc_from`.
use paged_alloc.Base.{ℕ, ◌+◌, ◌≡◌, refl, some, List, ◌++◌, length, All}
use paged_alloc.Memory.{read_bytes}
use paged_alloc.Alloc.{Layout, Block, Memory}
use paged_alloc.Alloc.Zeroed.{IsAllocator}
use paged_alloc.Source.{PageSource, Contract}
use paged_alloc.World.{returned}
use paged_alloc.Chunk.{State, PackedPage, clone_arc, drop_arc}
use paged_alloc.Chunk.Builder.{Chunk, as_slice}
use paged_alloc.Chunk.Carved.{Span, page_of}
use paged_alloc.Chunk.Holds.{IsChunks}
use paged_alloc.Chunk.Grant.{span_of}
use paged_alloc.Chunk.Append.{buf_of_lem}
use paged_alloc.Chunk.Isolated.{Untouched}
use paged_alloc.Chunk.Allocate.{alloc_from}

pub as_slice_lem :
    (chunk : Chunk) (i : ℕ) (w : State) (pg : PackedPage)
    → chunk.inner.packed ≡ some i
    → page_of i w.arcs ≡ some pg
    → as_slice chunk w
      ≡ returned (read_bytes w.mem.bytes (pg.buf + chunk.inner.offset) chunk.inner.length) w
unfolding as_slice
as_slice_lem chunk i w pg held is = rw (held, as_slice) (rw (buf_of_lem i w pg is) refl)

-- The state that sealing over the `Arc` numbered `i` leaves.
abbrev resealed : ℕ → State → State
resealed i w = drop_arc i (clone_arc i w)

module _ {s : PageSource} (c : Contract s) {place : Layout → Memory → ℕ} (good : IsAllocator place)
    (t : ℕ) (bs : List ℕ) (rest : List Block) (outs : List Span) (w : State) where
  -- A copy of `bs` as a chunk of its own.
  pub record Copied (chunk : Chunk) (w' : State) : Type 0 where
    pub free : List ℕ
    pub queued : List ℕ
    pub result : alloc_from place t bs w ≡ returned chunk w'
    pub contents : as_slice chunk w' ≡ returned bs w'
    pub chunks :
        IsChunks c w' free queued rest
          (span_of chunk.inner.packed chunk.inner.offset (length bs) ++ outs)
    pub others : All (Untouched w w'.mem.bytes) outs
