-- ===== src/Source/Mmap.antt =====
-- src/mmap.rs: `MmapSource`, `HugePageSource` and `madvise_dontneed` over the C library.
pub mod Keeps
pub mod Select
use Prim.Native.Nat.{bit_or}
use paged_alloc.Base.{
  ℕ, zero, suc, ◌%◌, ◌*◌, Bool, true, false, ◌&&◌, not, Option, none, some, leb, ◌==◌,
  if◌then◌else◌, ℤ, pos, negsuc, Result, ok, err,
}
use paged_alloc.Memory.{ptr_size}
use paged_alloc.Alloc.{Memory}
use paged_alloc.Source.{PageSource}
use paged_alloc.Source.Libc.{Libc, read_write, anonymous, anonymous_huge}
use paged_alloc.Source.Touch.{touch, clear_byte}

-- `os_page_size`.
unfoldable pub os_page_size : Libc → ℕ
os_page_size l = elim l.sysconf_page_size [
  | negsuc n ↦ 4096
  | pos zero ↦ 4096
  | pos (suc n) ↦ suc n
]

pub record MmapSource : Type 0 where
  pub page_size : ℕ

-- `MmapSource::new`: `none` is a failed assertion.
unfoldable pub new : Libc → ℕ → Option MmapSource
new l page_size =
    if leb ptr_size page_size
    then if page_size % os_page_size l == 0 then some (record { page_size = page_size }) else none
    else none

-- `allocate` of both sources, with the flags of each: `MAP_FAILED` is a panic.
unfoldable pub map_page : Libc → (page_size flags : ℕ) → Memory → Option (ℕ × Memory)
map_page l page_size flags m =
    let (p, n) = l.mmap 0 page_size (read_write l) flags (negsuc 0) 0 m in
    if p == l.map_failed then none else some (p, n)

abbrev pub is_zero : ℤ → Bool
is_zero (pos n) = n == 0
is_zero (negsuc n) = false

-- `release` of both sources. With debug assertions on, a result that is not 0 is a panic.
unfoldable pub unmap_page : (debug : Bool) → Libc → (page_size p : ℕ) → Memory → Option Memory
unmap_page debug l page_size p m =
    let (rc, n) = l.munmap p page_size m in if debug && not (is_zero rc) then none else some n

-- `MmapSource::prefault`. Its loop makes at most one pass for each byte.
unfoldable pub prefault : Libc → MmapSource → ℕ → Memory → Option Memory
prefault l s p m = touch (suc s.page_size) s.page_size (os_page_size l) p 0 m

-- The default never comes to pass: see the fuel of `prefault`.
abbrev pub or_else : Memory → Option Memory → Memory
or_else m none = m
or_else m (some n) = n

-- `MmapSource` as a trait object.
unfoldable pub mmap_source : (debug : Bool) → Libc → MmapSource → PageSource
mmap_source debug l s = record {
  page_size = s.page_size;
  unwinds = true;
  allocate = map_page l s.page_size (anonymous l);
  release = unmap_page debug l s.page_size;
  prefault = λ p m. or_else m (prefault l s p m);
}

pub record HugePageSource : Type 0 where
  pub page_size : ℕ
  pub log2_huge_size : ℕ

abbrev pub size_2mib : ℕ
size_2mib = 2 * 1024 * 1024

abbrev pub size_1gib : ℕ
size_1gib = 1024 * 1024 * 1024

-- `HugePageSource::new`: `none` is its panic.
unfoldable pub new_huge : ℕ → Option HugePageSource
new_huge page_size =
    if page_size == size_2mib
    then some (record { page_size = page_size; log2_huge_size = 21 })
    else if page_size == size_1gib
    then some (record { page_size = page_size; log2_huge_size = 30 })
    else none

-- `HugePageSource` as a trait object; its `prefault` writes one byte.
unfoldable pub huge_source : (debug : Bool) → Libc → HugePageSource → PageSource
huge_source debug l s = record {
  page_size = s.page_size;
  unwinds = true;
  allocate = map_page l s.page_size (anonymous_huge l s.log2_huge_size);
  release = unmap_page debug l s.page_size;
  prefault = λ p m. clear_byte p m;
}

-- `madvise_dontneed`, as it is compiled on Linux.
unfoldable pub madvise_dontneed : Libc → (p len : ℕ) → Memory → Result ℕ Unit × Memory
madvise_dontneed l p len m =
    let (rc, n) = l.madvise p len l.madv_dontneed m in
    if is_zero rc then (ok tt, n) else (err (l.last_os_error n), n)
