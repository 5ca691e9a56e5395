-- ===== src/Tests/Data.antt =====
-- The source, memories and pools that the tests start from.
use mathlib.Core.List.{Mem}
use mathlib.Core.List
use paged_alloc.Base.{◌≡◌, refl, some, [], ◌∷◌, arith}
use paged_alloc.Alloc.{Memory, block, zero_fill, alloc_zeroed}
use paged_alloc.Alloc.Sound.{IsSound}
use paged_alloc.Alloc.Bump.{bump, bump-IsAllocator, top}
use paged_alloc.Source.{PageSource, Contract}
use paged_alloc.Source.Heap
use paged_alloc.Source.Heap.{HeapSource, IsHeap, as_source, HeapSource-Contract}
use paged_alloc.Tenant.{Tenants, fresh}
use paged_alloc.Pool.{
  PagePool, new_pool, counted, charged, with_source, allocate_raw_page, find_page, pop_local,
  drain_return_queue, allocate_fresh, push_return,
}
use paged_alloc.Pool.Invariant.{IsPool}
use paged_alloc.Pool.Reuse.{allocate_raw_page-fresh}
use paged_alloc.Pool.Return.{with_shared, push_return-IsPool}
use paged_alloc.Pool.Prewarm.{with_source-IsPool}
use paged_alloc.World.{World}
use paged_alloc.Chunk.{State}
use paged_alloc.Chunk.Holds.{IsChunks, new_state, from_pool-IsChunks}

abbrev pub heap : HeapSource
heap = record { page_size = 64; layout = record { size = 64; align = 8 } }

abbrev pub heap-IsHeap : IsHeap heap
heap-IsHeap = record { size = refl; align = refl; holds_pointer = omega arith }

abbrev pub source : PageSource
source = as_source bump heap

abbrev pub contract : Contract source
contract = HeapSource-Contract bump-IsAllocator heap heap-IsHeap

abbrev pub no_memory : Memory
no_memory = record { bytes = λ _. 0; live = [] }

pub no_memory-IsSound : IsSound no_memory
no_memory-IsSound = record {
  apart = List.Pairwise.nil;
  placed = λ b h. absurd (List.not-mem-nil h);
}

abbrev pub new : PagePool
new = new_pool source

pub new-accepted : with_source source ≡ some new
unfolding with_source as_source
new-accepted = refl

pub new-IsPool : IsPool contract new no_memory [] [] [] []
new-IsPool = with_source-IsPool contract no_memory new no_memory-IsSound new-accepted

-- One page in use.
abbrev pub one_used : PagePool
one_used = counted (charged new)

abbrev pub one_block : Memory
one_block = record { bytes = zero_fill (λ _. 0) 8 64; live = block 8 heap.layout ∷ [] }

pub one_taken : allocate_raw_page new no_memory ≡ some (8, one_used, one_block)
unfolding allocate_raw_page find_page pop_local drain_return_queue allocate_fresh as_source
    Heap.allocate alloc_zeroed bump top
one_taken = refl

pub one_used-IsPool : IsPool contract one_used one_block [] [] (8 ∷ []) []
one_used-IsPool =
    (allocate_raw_page-fresh contract new no_memory [] [] 8 one_used one_block new-IsPool
      one_taken).0

-- The page back on the return queue.
abbrev pub one_returned : PagePool
one_returned = with_shared one_used ((push_return one_used.shared one_block 8).0)

abbrev pub linked : Memory
linked = (push_return one_used.shared one_block 8).1

pub one_returned-IsPool : IsPool contract one_returned linked [] (8 ∷ []) [] []
one_returned-IsPool = push_return-IsPool contract one_used one_block 8 [] [] [] [] one_used-IsPool

abbrev pub tenants : Tenants
tenants = λ _. fresh

abbrev pub world : World
world = record { pool = new; mem = no_memory; tenants = tenants }

abbrev pub busy_world : World
busy_world = record { pool = one_used; mem = one_block; tenants = tenants }

abbrev pub returned_world : World
returned_world = record { pool = one_returned; mem = linked; tenants = tenants }

abbrev pub chunks : State
chunks = new_state new no_memory tenants

pub chunks-IsChunks : IsChunks contract chunks [] [] [] []
chunks-IsChunks = from_pool-IsChunks contract new no_memory tenants [] [] [] new-IsPool
