-- ===== src/Tests/Kernel.antt =====
-- A concrete kernel of 4096-byte pages, with the constants of Linux: it maps above all that is live.
use mathlib.Core.List.{Mem}
use paged_alloc.Base.{
  ℕ, ◌-◌, ◌+◌, ◌*◌, ◌/◌, ◌%◌, ◌^◌, ◌<◌, ◌≡◌, ◌≢◌, inl, inr, refl, none, some, ◌==◌, ==_cases,
  if◌then◌else◌, ℤ, pos, negsuc, arith,
}
use paged_alloc.Alloc.{Layout, Memory, block, zero_fill, alloc_zeroed, dealloc}
use paged_alloc.Alloc.Sound.{IsSound, Released, dealloc_lem}
use paged_alloc.Alloc.Zeroed.{Allocated, alloc_zeroed_lem}
use paged_alloc.Alloc.Bump.{bump, bump-IsAllocator}
use paged_alloc.Source.Libc.{Libc, IsMapper, IsMapped, IsAdviser}

abbrev pub failed : ℕ
failed = 2 ^ 64 - 1

abbrev mapping : ℕ → Layout
mapping length = record { size = length; align = 4096 }

unfoldable pub map_at : ℕ → Memory → ℕ × Memory
map_at length m =
    let (p, n) = alloc_zeroed bump (mapping length) m in if p == 0 then (failed, m) else (p, n)

unfoldable pub unmap_at : ℕ → ℕ → Memory → ℤ × Memory
unmap_at p length m = elim (dealloc p (mapping length) m) [
  | none ↦ (negsuc 0, m)
  | some n ↦ (pos 0, n)
]

-- `EINVAL` for an address within a page; the length is rounded up to whole pages.
unfoldable pub advise : ℕ → ℕ → ℕ → Memory → ℤ × Memory
advise p len advice m =
    if p % 4096 == 0
    then (pos 0, record m { bytes = zero_fill m.bytes p ((len + 4095) / 4096 * 4096) })
    else (negsuc 0, m)

abbrev pub libc : Libc
libc = record {
  sysconf_page_size = pos 4096;
  mmap = λ addr length prot flags fd offset m. map_at length m;
  munmap = unmap_at;
  madvise = advise;
  last_os_error = λ m. 22;
  prot_read = 1;
  prot_write = 2;
  map_anonymous = 0x20;
  map_private = 0x02;
  map_hugetlb = 0x40000;
  map_failed = failed;
  madv_dontneed = 4;
}

pub maps_lem :
    (length : ℕ) (m : Memory)
    → IsSound m
    → 0 < length
    → let (p, n) = map_at length m in
      p ≢ failed → (p % 4096 ≡ 0) × Allocated (block p (mapping length)) m n
unfolding map_at
maps_lem length m sound size = elim (==_cases (alloc_zeroed bump (mapping length) m).0 0) [
  | inl (e, _) ↦ rw e (λ miss. absurd (miss refl))
  | inr (e, ne) ↦ rw e (λ _. alloc_zeroed_lem bump-IsAllocator (mapping length) m sound size ne)
]

pub unmaps_lem :
    (p length : ℕ) (m : Memory)
    → Mem (block p (mapping length)) m.live
    → (n : Memory) × (unmap_at p length m ≡ (pos 0, n)) × Released (block p (mapping length)) m n
unfolding unmap_at
unmaps_lem p length m h =
    let (n, e, gone) = dealloc_lem p (mapping length) m h in (n, rw (e, unmap_at) refl, gone)

abbrev pub libc_mapper : IsMapper libc
libc_mapper = record {
  granule = 4096;
  aligned = refl;
  maps = λ length flags m sound size which. maps_lem length m sound size;
  unmaps = unmaps_lem;
}

advised :
    (p len : ℕ) (m : Memory)
    → IsMapped 4096 p len m
    → advise p len 4 m ≡ (pos 0, record m { bytes = zero_fill m.bytes p len })
unfolding advise
advised p len m region =
    let all : (len + 4095) / 4096 * 4096 ≡ len = omega (arith, region.whole) in
    rw (region.start, all) refl

pub libc-IsAdviser : IsAdviser libc 4096
unfolding zero_fill
libc-IsAdviser = record {
  live = λ p len m region. rw (advised p len m region) refl;
  same = λ p len m region q out. rw (advised p len m region) (ground arith);
  zero = λ p len q m region e lo hi. rw (advised p len m region) (ground arith);
}
