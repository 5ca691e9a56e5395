-- ===== src/Pool/Return.antt =====
-- `PoolShared::push_return` (src/pool.rs).
use mathlib.Core.List.{mem-append_left}
use mathlib.Core.List
use paged_alloc.Base.{ℕ, ◌≤◌, refl, List, ◌∷◌, ◌++◌, arith}
use paged_alloc.Memory.{ptr_size}
use paged_alloc.Alloc.{Block, Memory}
use paged_alloc.Source.{PageSource, Contract}
use paged_alloc.Pool.{PoolShared, PagePool, push_return}
use paged_alloc.Pool.Ownership.{
  Owns, Owns-perm, Owns-write, IsSound-write, used_first, queued_first,
}
use paged_alloc.Pool.Links.{Chain-spared, Chain-link, write_ptr_within}
use paged_alloc.Pool.Invariant.{IsPool}

-- The pool once the shared part has changed.
abbrev pub with_shared : PagePool → PoolShared → PagePool
with_shared pool s = record pool { shared = s }

-- `push_return` moves a page that was in use to the front of the return queue.
module _ {s : PageSource} (c : Contract s) (pool : PagePool) (m : Memory) where
  -- `push_return` moves a page that was in use to the front of the return queue; the invariant of
  -- the pool is kept.
  pub push_return-IsPool :
      (p : ℕ) (free queued used : List ℕ) (rest : List Block)
      → IsPool c pool m free queued (p ∷ used) rest
      → let (shared, n) = push_return pool.shared m p in
        IsPool c (with_shared pool shared) n free (p ∷ queued) used rest
  unfolding push_return
  push_return-IsPool p free queued used rest k = record {
    source = source;
    page_size = page_size;
    holds_pointer = holds_pointer;
    owns =
        Owns-perm (queued_first p free queued used)
          (Owns-write (IsSound-write refl owned.sound) refl owned);
    local =
        Chain-spared m.bytes p pool.local_head free fits owned (λ q h. mem-append_left _ h)
          (write_ptr_within m.bytes p pool.shared.return_head fits) local;
    queue =
        Chain-link m.bytes p pool.shared.return_head queued fits owned
          (λ q h. List.mem-append_right free (mem-append_left used h)) queue;
    free_pages = omega arith;
    pages_in_use = omega arith;
    allocations = omega arith;
  }
    where
      open k use {source, page_size, holds_pointer, owns, local, queue}

      owned : Owns c.layout m (p ∷ (free ++ (queued ++ used))) rest
      owned = Owns-perm (used_first p free queued used) owns

      fits : ptr_size ≤ c.layout.size
      fits = omega (arith, c.size)
