-- ===== src/Tests/OfPool.antt =====
-- The theorems on src/pool.rs, src/source.rs and src/chunk.rs's rounding, at concrete inputs.
use paged_alloc.Base.{wrapping_add, none, ◌⊎◌, ℕ, ◌≡◌, refl, some, List, [], ◌∷◌, length, arith}
use paged_alloc.Memory.{read_ptr, write_ptr}
use paged_alloc.Memory.Pointer.{read-write_ptr}
use paged_alloc.Alloc.{Memory}
use paged_alloc.Alloc.Bump.{bump, bump-IsAllocator}
use paged_alloc.Alloc.Zeroed.{Allocated}
use paged_alloc.Source.{Contract}
use paged_alloc.Source.Heap.{as_source, HeapSource-Contract}
use paged_alloc.Pool.{PagePool, allocate_raw_page, prewarm, link}
use paged_alloc.Pool.Ownership.{page}
use paged_alloc.Pool.Invariant.{IsPool}
use paged_alloc.Pool.Reuse.{allocate_raw_page-reuse, allocate_raw_page-fresh}
use paged_alloc.Pool.Return.{push_return-IsPool}
use paged_alloc.Pool.Ready.{Stopped, prewarm_cases}
use paged_alloc.Tests.Data.{
  heap, heap-IsHeap, contract, no_memory, new, new-IsPool, one_used, one_block, one_taken,
  one_used-IsPool, one_returned, linked, one_returned-IsPool,
}

push_return-IsPool_example : IsPool contract one_returned linked [] (8 ∷ []) [] []
push_return-IsPool_example =
    push_return-IsPool contract one_used one_block 8 [] [] [] [] one_used-IsPool

allocate_raw_page-reuse_example :
    (pool : PagePool) × (allocate_raw_page one_returned linked ≡ some (8, pool, linked))
    × IsPool contract pool linked [] [] (8 ∷ []) []
allocate_raw_page-reuse_example =
    allocate_raw_page-reuse contract one_returned linked [] (8 ∷ []) [] [] 8 [] one_returned-IsPool
      refl

allocate_raw_page-fresh_example :
    IsPool contract one_used one_block [] [] (8 ∷ []) []
    × Allocated (page contract.layout 8) no_memory one_block
allocate_raw_page-fresh_example =
    allocate_raw_page-fresh contract new no_memory [] [] 8 one_used one_block new-IsPool one_taken

-- What a write of a null pointer into the page leaves.
abbrev cleared : Memory
cleared = link one_block 8 0

prewarm_cases_example :
    ((prewarm 3 one_returned linked ≡ none) × Stopped 3 one_returned linked)
    ⊎ ((pool' : PagePool) × (n : Memory) × (prewarm 3 one_returned linked ≡ some (pool', n))
        × (free' : List ℕ) × (length free' ≡ 3)
        × IsPool contract pool' n free' (8 ∷ []) [] []
        × (pool'.shared.stats.prewarmed_pages
            ≡ wrapping_add one_returned.shared.stats.prewarmed_pages 3))
prewarm_cases_example =
    prewarm_cases contract 3 one_returned linked [] (8 ∷ []) [] [] one_returned-IsPool

HeapSource-Contract_example : Contract (as_source bump heap)
HeapSource-Contract_example = HeapSource-Contract bump-IsAllocator heap heap-IsHeap

read-write_ptr_example : read_ptr (write_ptr no_memory.bytes 8 4096) 8 ≡ 4096
read-write_ptr_example = read-write_ptr no_memory.bytes 8 4096 (omega arith)
