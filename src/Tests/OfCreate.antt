-- ===== src/Tests/OfCreate.antt =====
-- The constructors of src/pool.rs and src/chunk.rs at concrete inputs: two pages of 64 bytes.
use paged_alloc.Base.{true, is_power_of_two, is_power_of_two-power, ◌≡◌, refl, some, [], ◌∷◌, arith}
use paged_alloc.Alloc.{Memory, block, zero_fill, alloc_zeroed, from_size_align}
use paged_alloc.Alloc.Bump.{bump, bump-IsAllocator, top}
use paged_alloc.Source.Heap
use paged_alloc.Source.Heap.{as_source, HeapSource-Contract}
use paged_alloc.Pool
use paged_alloc.Pool.{PagePool, link, warmed, prewarm, prewarm_loop}
use paged_alloc.Pool.Create
use paged_alloc.Pool.Create.{Created}
use paged_alloc.Chunk.{from_pool}
use paged_alloc.Chunk.Create.{with_capacity, with_capacity-IsChunks}
use paged_alloc.Chunk.Holds.{IsChunks, new_state}
use paged_alloc.Tests.Data.{heap, no_memory, no_memory-IsSound, new, tenants}

-- After one page, and after two.
abbrev first : Memory
first = link (record { bytes = zero_fill (λ _. 0) 8 64; live = block 8 heap.layout ∷ [] }) 8 0

abbrev second : Memory
second =
    link
      (record {
        bytes = zero_fill first.bytes 80 64;
        live = block 80 heap.layout ∷ block 8 heap.layout ∷ [];
      })
      80 8

abbrev two_free : PagePool
two_free = warmed 2 (record new { local_head = 80 })

heap_made : Heap.new 64 ≡ some heap
unfolding Heap.new from_size_align
heap_made =
    let eight : is_power_of_two 8 ≡ true = is_power_of_two-power 3 (omega arith) in rw eight refl

two_made : with_capacity bump 64 2 no_memory ≡ some (from_pool two_free, second)
unfolding with_capacity Create.with_capacity Create.new Pool.with_source prewarm prewarm_loop
    as_source Heap.allocate alloc_zeroed bump top
two_made = rw heap_made refl

with_capacity-IsChunks_example :
    (pages : PagePool) × (made : Created bump-IsAllocator 64 2 no_memory pages second) × (from_pool
        two_free
      ≡ from_pool pages)
    × IsChunks
        (HeapSource-Contract bump-IsAllocator made.source made.is_heap)
        (record (new_state pages second tenants) { pool = from_pool two_free })
        made.free
        []
        []
        []
with_capacity-IsChunks_example =
    with_capacity-IsChunks bump-IsAllocator 64 2 no_memory second (from_pool two_free) tenants
      no_memory-IsSound two_made
