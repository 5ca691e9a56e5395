-- ===== src/Tests/OfChunk.antt =====
-- The theorems on src/chunk.rs at concrete inputs.
use mathlib.Core.List.{Perm}
use paged_alloc.Chunk.Teardown.{drop_chunk_pool, drop_chunk_pool-Freed}
use paged_alloc.Base.{
  false, ℕ, ◌^◌, ◌%◌, ◌≤◌, ◌≡◌, ◌⊎◌, inr, refl, some, none, List, [], ◌∷◌, arith, word,
}
use paged_alloc.Source.Heap.{as_source}
use paged_alloc.World.{returned}
use paged_alloc.Chunk.{State, align_up, drop_arc}
use paged_alloc.Chunk.Align.{Ceiling, align_up-Ceiling}
use paged_alloc.Chunk.Fit.{IsOpen, Fits, fit-Fits, fit_complete}
use paged_alloc.Chunk.Dispatch.{fit, find_room, packed_rounds}
use paged_alloc.Chunk.Builder.{ChunkBuilder, seal, drop_builder, drop_chunk}
use paged_alloc.Chunk.Carved.{Span}
use paged_alloc.Chunk.Invariant.{IsCounted}
use paged_alloc.Chunk.Acquire.{with_arc, arrived}
use paged_alloc.Chunk.Holds.{IsChunks}
use paged_alloc.Chunk.Drop.{drop_arc-IsCounted}
use paged_alloc.Chunk.Packed.{Claimed, find_room-Claimed}
use paged_alloc.Chunk.Claim.{page_at}
use paged_alloc.Chunk.Grant.{alone-IsChunks}
use paged_alloc.Chunk.Failure.{Refused}
use paged_alloc.Chunk.Kept.{Kept}
use paged_alloc.Chunk.Lifetime.{sealed, seal-IsChunks, drop_builder-IsChunks, drop_chunk-IsChunks}
use paged_alloc.Chunk.Append.{Appended, append-Appended}
use paged_alloc.Chunk.Copied.{Copied}
use paged_alloc.Chunk.Builder.{Chunk}
use paged_alloc.Tests.Data.{contract, chunks, chunks-IsChunks, one_used, one_block, one_used-IsPool}

align_up-Ceiling_example :
    (r : ℕ) × Ceiling (2 ^ 4) 1001 r × (r ≤ word) × (align_up (1001 % word) (2 ^ 4) ≡ r % word)
align_up-Ceiling_example = align_up-Ceiling 4 1001 (omega arith) (omega arith)

-- A page of 64 bytes at 8, of which 10 are handed out.
page-IsOpen : IsOpen 64 8 10
page-IsOpen = record { not_null = omega arith; in_space = omega arith; within = omega arith }

fit_16 : fit 64 8 10 20 (2 ^ 4) ≡ some 24
unfolding fit align_up
fit_16 = refl

fit-Fits_example : Fits 64 8 10 20 (2 ^ 4) 24 × ((s : ℕ) → Fits 64 8 10 20 (2 ^ 4) s → 24 ≤ s)
fit-Fits_example = fit-Fits 64 8 10 20 4 24 (omega arith) page-IsOpen fit_16

at_40 : Fits 64 8 10 20 (2 ^ 4) 40
at_40 = record { past = omega arith; inside = omega arith; multiple = 3; aligned = refl }

fit_complete_example : (offset : ℕ) × (fit 64 8 10 20 (2 ^ 4) ≡ some offset) × (offset ≤ 40)
fit_complete_example = fit_complete 64 8 10 20 4 40 (omega arith) page-IsOpen at_40

find_room-Claimed_example :
    Refused contract [] [] (find_room packed_rounds 20 (2 ^ 4) chunks)
    ⊎ ((w' : State) × (id offset : ℕ) × (find_room packed_rounds 20 (2 ^ 4) chunks
          ≡ returned (id, offset) w')
        × Claimed contract 20 4 [] [] w' id offset)
unfolding as_source
find_room-Claimed_example =
    find_room-Claimed contract 20 4 [] [] chunks [] [] (omega arith)
      (omega arith, inr (omega arith)) chunks-IsChunks

-- One chunk of 20 bytes on a page of its own.
abbrev one_chunk : State
one_chunk = with_arc chunks (page_at 8) one_used one_block

abbrev bytes_20 : Span
bytes_20 = record { id = 0; offset = 0; size = 20 }

one_chunk-IsCounted : IsCounted contract one_chunk [] [] [] (0 ∷ [])
one_chunk-IsCounted =
    arrived contract [] [] [] chunks (page_at 8) one_used one_block [] [] [] chunks-IsChunks.counted
      one_used-IsPool

one_chunk-IsChunks : IsChunks contract one_chunk [] [] [] (bytes_20 ∷ [])
unfolding as_source
one_chunk-IsChunks =
    alone-IsChunks contract chunks [] [] [] [] (page_at 8) one_used one_block [] [] 20
      chunks-IsChunks one_chunk-IsCounted (omega arith)

drop_arc-IsCounted_example :
    (queued : List ℕ) × IsCounted contract (drop_arc 0 one_chunk) [] queued [] []
drop_arc-IsCounted_example = drop_arc-IsCounted contract [] [] [] one_chunk 0 [] one_chunk-IsCounted

abbrev builder_20 : ChunkBuilder
builder_20 = record {
  packed = some 0;
  tenant = some 0;
  oversized_bytes = 0;
  offset = 0;
  capacity = 20;
  len = 2;
}

seal-IsChunks_example :
    (w' : State) × (queued : List ℕ) × (seal builder_20 one_chunk
      ≡ returned (sealed builder_20 0) w')
    × IsChunks contract w' [] queued [] (bytes_20 ∷ [])
seal-IsChunks_example =
    seal-IsChunks contract [] builder_20 0 20 one_chunk [] [] [] refl one_chunk-IsChunks

drop_builder-IsChunks_example :
    (queued : List ℕ) × IsChunks contract (drop_builder builder_20 one_chunk) [] queued [] []
drop_builder-IsChunks_example =
    drop_builder-IsChunks contract [] builder_20 20 one_chunk [] [] [] one_chunk-IsChunks

drop_chunk-IsChunks_example :
    ((drop_chunk (sealed builder_20 0) one_chunk).0 ≡ none)
    × ((queued : List ℕ) × IsChunks contract
          ((drop_chunk (sealed builder_20 0) one_chunk).1)
          []
          queued
          []
          [])
drop_chunk-IsChunks_example =
    drop_chunk-IsChunks contract [] (sealed builder_20 0) 20 one_chunk [] [] [] one_chunk-IsChunks
      refl

abbrev text : List ℕ
text = 104 ∷ 105 ∷ []

append-Appended_example :
    (b' : ChunkBuilder) × (w' : State) × Appended contract one_chunk [] [] [] [] builder_20 0 text
      b' w'
append-Appended_example =
    append-Appended contract one_chunk [] [] [] [] builder_20 0 text refl (omega arith)
      (omega arith) one_chunk-IsChunks

abbrev long : List ℕ
long = 1 ∷ 2 ∷ 3 ∷ 4 ∷ 5 ∷ 6 ∷ 7 ∷ 8 ∷ 9 ∷ 10 ∷ 11 ∷ 12 ∷ 13 ∷ 14 ∷ 15 ∷ 16 ∷ 17 ∷ 18 ∷ 19 ∷ []

-- The page is open, and the only chunk on it is gone.
abbrev only_open : State
only_open = record one_chunk {
  pool = record one_chunk.pool { current = some (record { shared = 0; write_offset = 20 }) };
}

only_open-IsChunks : IsChunks contract only_open [] [] [] []
unfolding as_source
only_open-IsChunks = record {
  counted = record {
    pool = one_chunk-IsCounted.pool;
    counts = one_chunk-IsCounted.counts;
    alive = one_chunk-IsCounted.alive;
    distinct = one_chunk-IsCounted.distinct;
    fresh = one_chunk-IsCounted.fresh;
    no_fault = one_chunk-IsCounted.no_fault;
  };
  carved = record { open_page = (8, refl, omega arith); within = tt; separate = tt; below = tt };
}

drop_chunk_pool-Freed_example :
    (v : State) × (drop_chunk_pool 2 0 only_open ≡ some v)
    × Perm v.mem.live []
    × (v.faulted ≡ false)
drop_chunk_pool-Freed_example =
    drop_chunk_pool-Freed contract 2 only_open [] [] [] only_open-IsChunks (omega arith)
      (omega arith)
