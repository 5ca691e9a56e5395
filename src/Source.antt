-- ===== src/Source.antt =====
-- src/source.rs: the trait `PageSource`, with the contract that its implementors uphold.
pub mod Heap
pub mod Libc
pub mod Touch
pub mod Mmap
use mathlib.Core.List.{Mem}
use paged_alloc.Base.{Bool, ℕ, ◌%◌, ◌≤◌, ◌≡◌, Option, some}
use paged_alloc.Memory.{ptr_size}
use paged_alloc.Memory.Region.{SameOutside}
use paged_alloc.Alloc.{Layout, Memory, block}
use paged_alloc.Alloc.Sound.{IsSound, Released}
use paged_alloc.Alloc.Zeroed.{Allocated}

-- A trait object. `allocate` is `none` where it fails: it panics if `unwinds`, and leaves memory as it
-- was, or else ends the process. `release` is `none` where its effect is undefined.
pub record PageSource : Type 0 where
  pub page_size : ℕ
  pub unwinds : Bool
  pub allocate : Memory → Option (ℕ × Memory)
  pub release : ℕ → Memory → Option Memory
  pub prefault : ℕ → Memory → Memory

-- A write that stays within the page at `p`.
pub record WritesIn (p n : ℕ) (m m' : Memory) : Type 0 where
  pub live : m'.live ≡ m.live
  pub same : SameOutside p n m.bytes m'.bytes

-- The safety section of the trait. `layout` is what the source asks its own provider for.
pub record Contract (s : PageSource) : Type 0 where
  pub layout : Layout
  pub size : layout.size ≡ s.page_size
  pub allocates :
      (m m' : Memory) (p : ℕ)
      → IsSound m
      → s.allocate m ≡ some (p, m')
      → (p % ptr_size ≡ 0) × Allocated (block p layout) m m'
  pub releases :
      (m : Memory) (p : ℕ)
      → Mem (block p layout) m.live
      → (m' : Memory) × (s.release p m ≡ some m') × Released (block p layout) m m'
  pub prefaults :
      (m : Memory) (p : ℕ) → Mem (block p layout) m.live → WritesIn p s.page_size m (s.prefault p m)
