-- ===== src/Tests/OfLedger.antt =====
-- The theorems on the counters of src/chunk.rs, at concrete inputs: a chunk of 100 bytes, which is more
-- than a page, is allocated, sealed and dropped.
use paged_alloc.Base.{
  ◌≡◌, refl, some, none, true, [], ◌∷◌, is_power_of_two, is_power_of_two-power, arith,
}
use paged_alloc.Alloc.{Layout, Memory, alloc_zeroed, zero_fill, block, from_size_align}
use paged_alloc.Alloc.Bump.{bump, top}
use paged_alloc.Source.Heap.{as_source}
use paged_alloc.World.{returned}
use paged_alloc.Chunk.{State, charge, new_arc, to_heap, clone_option}
use paged_alloc.Chunk.Acquire.{with_arc}
use paged_alloc.Chunk.Builder.{ChunkBuilder, Chunk, seal, drop_builder, drop_chunk}
use paged_alloc.Chunk.Dispatch.{new_builder, heap_page, allocate_oversized, count_oversized}
use paged_alloc.Chunk.Allocate.{path, allocate_aligned}
use paged_alloc.Chunk.Lifetime.{sealed}
use paged_alloc.Chunk.Ledger.{
  Balanced, Ops, grant, seal_up, drop_last, none_yet, and_op, Ops-Balanced,
}
use paged_alloc.Tests.Data.{chunks, tenants}

abbrev layout_100 : Layout
layout_100 = record { size = 100; align = 8 }

abbrev block_100 : Memory
block_100 = record { bytes = zero_fill (λ _. 0) 8 100; live = block 8 layout_100 ∷ [] }

abbrev builder_100 : ChunkBuilder
builder_100 = new_builder (some 0) 0 100 0 100

abbrev with_100 : State
with_100 = count_oversized 100 (
    charge 0 100 (
      with_arc chunks (record { buf = 8; release = to_heap layout_100 }) chunks.pool.pages
        block_100))

granted_100 : allocate_aligned bump 0 100 8 chunks ≡ returned builder_100 with_100
unfolding allocate_aligned path allocate_oversized heap_page from_size_align new_arc charge
    as_source alloc_zeroed bump top
granted_100 =
    let eight : is_power_of_two 8 ≡ true = is_power_of_two-power 3 (omega arith) in rw eight refl

abbrev chunk_100 : Chunk
chunk_100 = sealed builder_100 0

abbrev sealed_100 : State
sealed_100 = drop_builder (record builder_100 { tenant = none }) (clone_option (some 0) with_100)

sealing : seal builder_100 with_100 ≡ returned chunk_100 sealed_100
unfolding seal
sealing = refl

nothing : Balanced tenants chunks []
nothing = record {
  chunks = refl;
  oversized = refl;
  tenant_chunks = λ t. refl;
  tenant_bytes = λ t. refl;
}

there_and_back : Ops bump chunks [] ((drop_chunk chunk_100 sealed_100).1) []
there_and_back =
    and_op
      (and_op (and_op none_yet (grant 0 100 8 builder_100 (omega arith) granted_100))
        (seal_up 0 builder_100 chunk_100 [] [] refl sealing))
      (drop_last chunk_100 [] [] refl)

Ops-Balanced_example : Balanced tenants ((drop_chunk chunk_100 sealed_100).1) []
Ops-Balanced_example =
    Ops-Balanced bump tenants chunks [] ((drop_chunk chunk_100 sealed_100).1) [] there_and_back
      nothing
