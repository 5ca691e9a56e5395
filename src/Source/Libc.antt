-- ===== src/Source/Libc.antt =====
-- The calls of src/mmap.rs into the C library and the kernel, which are parameters here, and what
-- their manual pages say of them.
use mathlib.Core.List.{Mem}
use Prim.Native.Nat.{bit_or}
use paged_alloc.Base.{ℕ, ◌+◌, ◌≤◌, ◌%◌, ◌*◌, ◌^◌, ◌<◌, ◌≡◌, ◌≢◌, ◌⊎◌, ℤ, pos, negsuc}
use paged_alloc.Memory.{ptr_size}
use paged_alloc.Memory.Region.{SameOutside}
use paged_alloc.Alloc.{Memory, block}
use paged_alloc.Alloc.Sound.{IsSound, Released}
use paged_alloc.Alloc.Zeroed.{Allocated}

-- The calls, and the constants of the `libc` crate. Memory with its live blocks stands for the address
-- space and its mappings.
pub record Libc : Type 0 where
  pub sysconf_page_size : ℤ  -- `sysconf(_SC_PAGESIZE)`
  pub mmap : (addr length prot flags : ℕ) → (fd : ℤ) → (offset : ℕ) → Memory → ℕ × Memory
  pub munmap : (addr length : ℕ) → Memory → ℤ × Memory
  pub madvise : (addr length advice : ℕ) → Memory → ℤ × Memory
  pub last_os_error : Memory → ℕ
  pub prot_read : ℕ
  pub prot_write : ℕ
  pub map_anonymous : ℕ
  pub map_private : ℕ
  pub map_hugetlb : ℕ
  pub map_failed : ℕ
  pub madv_dontneed : ℕ

-- An `i32` shifted to the left; the flags are words of 32 bits.
abbrev pub shl : ℕ → ℕ → ℕ
shl x k = (x * 2 ^ k) % 2 ^ 32

abbrev pub read_write : Libc → ℕ
read_write l = bit_or l.prot_read l.prot_write

abbrev pub anonymous : Libc → ℕ
anonymous l = bit_or l.map_anonymous l.map_private

-- `MAP_HUGE_SHIFT` of `<linux/mman.h>`.
abbrev pub huge_shift : ℕ
huge_shift = 26

abbrev pub anonymous_huge : Libc → ℕ → ℕ
anonymous_huge l log2_size = bit_or (bit_or (anonymous l) l.map_hugetlb) (shl log2_size huge_shift)

-- mmap(2) and munmap(2), for private anonymous mappings at an address that the kernel chooses, with
-- pages of the base size or huge ones.
pub record IsMapper (l : Libc) : Type 0 where
  pub granule : ℕ  -- the page size of the kernel
  pub aligned : granule % ptr_size ≡ 0
  pub maps :
      (length flags : ℕ) (m : Memory)
      → IsSound m
      → 0 < length
      → (flags ≡ anonymous l) ⊎ ((k : ℕ) × (flags ≡ anonymous_huge l k))
      → let (p, n) = l.mmap 0 length (read_write l) flags (negsuc 0) 0 m in
        p ≢ l.map_failed
        → (p % granule ≡ 0) × Allocated (block p (record { size = length; align = granule })) m n
  pub unmaps :
      (p length : ℕ) (m : Memory)
      → Mem (block p (record { size = length; align = granule })) m.live
      → (n : Memory) × (l.munmap p length m ≡ (pos 0, n))
        × Released (block p (record { size = length; align = granule })) m n

-- Whole pages of the kernel, from the start of one on, within one live mapping.
pub record IsMapped (granule p len : ℕ) (m : Memory) : Type 0 where
  pub start : p % granule ≡ 0
  pub whole : len % granule ≡ 0
  pub base : ℕ
  pub size : ℕ
  pub live : Mem (block base (record { size = size; align = granule })) m.live
  pub from : base ≤ p
  pub to : p + len ≤ base + size

-- madvise(2) with `MADV_DONTNEED` on a private anonymous mapping, for an address and a length that are
-- multiples of the page size of the kernel. A call that fails may have dropped some pages already.
pub record IsAdviser (l : Libc) (granule : ℕ) : Type 0 where
  pub live :
      (p len : ℕ) (m : Memory)
      → IsMapped granule p len m
      → (l.madvise p len l.madv_dontneed m).1.live ≡ m.live
  pub same :
      (p len : ℕ) (m : Memory)
      → IsMapped granule p len m
      → SameOutside p len m.bytes (l.madvise p len l.madv_dontneed m).1.bytes
  pub zero :
      (p len q : ℕ) (m : Memory)
      → IsMapped granule p len m
      → (l.madvise p len l.madv_dontneed m).0 ≡ pos 0
      → p ≤ q
      → q < p + len
      → (l.madvise p len l.madv_dontneed m).1.bytes q ≡ 0
