-- ===== src/Pool/Invariant.antt =====
-- The invariant of `PagePool` (src/pool.rs): every page is on the local list, on the return queue
-- or in use; the two lists are intact in memory; the counters count.
use paged_alloc.Base.{ℕ, ◌+◌, ◌%◌, ◌≤◌, ◌≡◌, List, ◌++◌, length, word}
use paged_alloc.Memory.{ptr_size}
use paged_alloc.Alloc.{Block, Memory}
use paged_alloc.Source.{PageSource, Contract}
use paged_alloc.Pool.{PagePool}
use paged_alloc.Pool.Ownership.{Owns}
use paged_alloc.Pool.Chain.{Chain}

module _ {s : PageSource} (c : Contract s) where
  pub record IsPool (pool : PagePool) (m : Memory) (free queued used : List ℕ) (rest : List Block)
      : Type 0 where
    pub source : pool.shared.source ≡ s
    pub page_size : pool.shared.page_size ≡ s.page_size
    pub holds_pointer : ptr_size ≤ s.page_size
    pub owns : Owns c.layout m (free ++ (queued ++ used)) rest
    pub local : Chain m.bytes pool.local_head free
    pub queue : Chain m.bytes pool.shared.return_head queued
    pub free_pages : pool.shared.stats.free_pages ≡ (length free + length queued) % word
    pub pages_in_use : pool.shared.stats.pages_in_use ≡ length used % word
    pub allocations :
        pool.shared.stats.allocations_from_heap ≡ (length free + length queued + length used) % word
