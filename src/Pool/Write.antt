-- ===== src/Pool/Write.antt =====
-- A client's write to a page in use, and the invariant of the pool (src/pool.rs).
use mathlib.Core.List.{Perm, mem-append_left}
use mathlib.Core.List
use mathlib.Core.List.Perm
use paged_alloc.Base.{ℕ, ◌≤◌, ◌≡◌, List, ◌∷◌, ◌++◌, arith, length-perm}
use paged_alloc.Memory.{ptr_size}
use paged_alloc.Memory.Region.{SameOutside}
use paged_alloc.Alloc.{Block, Memory}
use paged_alloc.Source.{PageSource, Contract}
use paged_alloc.Pool.{PagePool}
use paged_alloc.Pool.Ownership.{Owns, Owns-perm, Owns-write, IsSound-write, used_first}
use paged_alloc.Pool.Links.{Chain-spared}
use paged_alloc.Pool.Invariant.{IsPool}

module _ {s : PageSource} (c : Contract s) (pool : PagePool) (m n : Memory) where
  -- A write within one page in use leaves the lists and the counters of the pool intact.
  pub write-IsPool :
      (p : ℕ) (free queued used : List ℕ) (rest : List Block)
      → SameOutside p s.page_size m.bytes n.bytes
      → n.live ≡ m.live
      → IsPool c pool m free queued (p ∷ used) rest
      → IsPool c pool n free queued (p ∷ used) rest
  write-IsPool p free queued used rest same live k = record {
    source = k.source;
    page_size = k.page_size;
    holds_pointer = k.holds_pointer;
    owns = Owns-write (IsSound-write live k.owns.sound) live k.owns;
    local =
        Chain-spared m.bytes p pool.local_head free fits owned (λ q h. mem-append_left _ h) outside
          k.local;
    queue =
        Chain-spared m.bytes p pool.shared.return_head queued fits owned
          (λ q h. List.mem-append_right free (mem-append_left used h)) outside k.queue;
    free_pages = k.free_pages;
    pages_in_use = k.pages_in_use;
    allocations = k.allocations;
  }
    where
      owned : Owns c.layout m (p ∷ (free ++ (queued ++ used))) rest
      owned = Owns-perm (used_first p free queued used) k.owns

      fits : ptr_size ≤ c.layout.size
      fits = omega (arith, c.size, k.holds_pointer)

      outside : SameOutside p c.layout.size m.bytes n.bytes
      outside q out = same q (omega (arith, c.size))

-- The pages in use may be listed in any order.
pub used-perm :
    {s : PageSource} (c : Contract s) (pool : PagePool) (m : Memory)
    {free queued used used' : List ℕ} {rest : List Block}
    → Perm used used'
    → IsPool c pool m free queued used rest
    → IsPool c pool m free queued used' rest
used-perm c pool m {free} {queued} e k = record {
  source = k.source;
  page_size = k.page_size;
  holds_pointer = k.holds_pointer;
  owns = Owns-perm (Perm.append_left free (Perm.append_left queued e)) k.owns;
  local = k.local;
  queue = k.queue;
  free_pages = k.free_pages;
  pages_in_use = omega (arith, k.pages_in_use, length-perm e);
  allocations = omega (arith, k.allocations, length-perm e);
}
