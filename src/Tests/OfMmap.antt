-- ===== src/Tests/OfMmap.antt =====
-- The theorems on src/mmap.rs, at concrete inputs.
use Prim.Native.Nat.{bit_or}
use mathlib.Core.List.{mem-cons_self}
use mathlib.Core.List
use paged_alloc.Base.{
  ℕ, ◌+◌, ◌/◌, ◌%◌, ◌^◌, ◌≤◌, ◌<◌, ◌≡◌, ◌⊎◌, refl, true, some, [], ◌∷◌, ok, err, arith,
}
use paged_alloc.Memory.{write_ptr, read_ptr, read_bytes, decode}
use paged_alloc.Memory.Pointer.{read-write_ptr, read_ptr-Same, write_ptr_outside}
use paged_alloc.Alloc.{Memory, Block, block, zero_fill, alloc_zeroed}
use paged_alloc.Alloc.Bump.{bump, top}
use paged_alloc.Pool.{
  PagePool, new_pool, counted, charged, with_source, allocate_raw_page, find_page, pop_local,
  drain_return_queue, allocate_fresh,
}
use paged_alloc.Pool.Prewarm.{with_source-IsPool}
use paged_alloc.Pool.Reuse.{allocate_raw_page-fresh}
use paged_alloc.Source.{PageSource, Contract}
use paged_alloc.Source.Touch.{Touched}
use paged_alloc.Source.Libc.{IsMapped, anonymous, anonymous_huge}
use paged_alloc.Source.Mmap.{
  MmapSource, HugePageSource, new, new_huge, os_page_size, prefault, mmap_source, huge_source,
  madvise_dontneed, size_2mib, map_page,
}
use paged_alloc.Source.Mmap.Keeps.{
  mmap_contract, MmapSource-Contract, HugePageSource-Contract, prefault-Touched,
}
use paged_alloc.Source.Mmap.Select.{anonymous_huge_lem}
use paged_alloc.Pool.Chain.{Chain}
use paged_alloc.Pool.Invariant.{IsPool}
use paged_alloc.Pool.Advise.{madvise_dontneed-IsPool, madvise_dontneed-cuts}
use paged_alloc.Tests.Data.{no_memory-IsSound, no_memory}
use paged_alloc.Tests.Kernel.{map_at, advise, libc, libc_mapper, libc-IsAdviser}

abbrev two_pages : MmapSource
two_pages = record { page_size = 8192 }

two_pages-accepted : new libc 8192 ≡ some two_pages
unfolding new os_page_size
two_pages-accepted = refl

MmapSource-Contract_example : Contract (mmap_source true libc two_pages)
MmapSource-Contract_example = MmapSource-Contract libc libc_mapper true two_pages (omega arith)

prefault-Touched_example :
    (m : Memory) × (prefault libc two_pages 4096 no_memory ≡ some m)
    × Touched 8192 (os_page_size libc) 4096 0 no_memory m
unfolding os_page_size
prefault-Touched_example =
    prefault-Touched libc 8192 two_pages 4096 no_memory two_pages-accepted (omega arith)

abbrev huge : HugePageSource
huge = record { page_size = size_2mib; log2_huge_size = 21 }

huge-accepted : new_huge size_2mib ≡ some huge
unfolding new_huge
huge-accepted = refl

HugePageSource-Contract_example : Contract (huge_source true libc huge)
HugePageSource-Contract_example =
    HugePageSource-Contract libc libc_mapper true huge size_2mib huge-accepted

anonymous_huge_lem_example :
    let flags = anonymous_huge libc 21 in
    (flags < 2 ^ 31)
    × (flags % 2 ^ 26 ≡ bit_or (anonymous libc) 0x40000)
    × (2 ^ (flags / 2 ^ 26) ≡ size_2mib)
anonymous_huge_lem_example =
    anonymous_huge_lem libc size_2mib huge huge-accepted (omega arith) (omega arith) (omega arith)

-- A pool of two-page pages, one of them in use.
abbrev mapped : PageSource
mapped = mmap_source true libc two_pages

abbrev mapped_contract : Contract mapped
mapped_contract = mmap_contract libc libc_mapper true two_pages (omega arith)

abbrev mapped_new : PagePool
mapped_new = new_pool mapped

abbrev mapped_one : PagePool
mapped_one = counted (charged mapped_new)

abbrev big : Block
big = block 4096 (record { size = 8192; align = 4096 })

abbrev mapped_memory : Memory
mapped_memory = record { bytes = zero_fill (λ _. 0) 4096 8192; live = big ∷ [] }

mapped_taken : allocate_raw_page mapped_new no_memory ≡ some (4096, mapped_one, mapped_memory)
unfolding allocate_raw_page find_page pop_local drain_return_queue allocate_fresh mmap_source
    map_page map_at alloc_zeroed bump top
mapped_taken = refl

mapped_new-IsPool : IsPool mapped_contract mapped_new no_memory [] [] [] []
unfolding with_source mmap_source
mapped_new-IsPool = with_source-IsPool mapped_contract no_memory mapped_new no_memory-IsSound refl

mapped_one-IsPool : IsPool mapped_contract mapped_one mapped_memory [] [] (4096 ∷ []) []
mapped_one-IsPool =
    (allocate_raw_page-fresh mapped_contract mapped_new no_memory [] [] 4096 mapped_one
      mapped_memory mapped_new-IsPool mapped_taken).0

madvise_dontneed-IsPool_example :
    let (result, n) = madvise_dontneed libc 4096 8192 mapped_memory in
    IsPool mapped_contract mapped_one n [] [] (4096 ∷ []) []
    × (((result ≡ ok tt) × ((q : ℕ) → 4096 ≤ q → q < 4096 + 8192 → n.bytes q ≡ 0))
        ⊎ (result ≡ err 22))
madvise_dontneed-IsPool_example =
    madvise_dontneed-IsPool libc libc_mapper libc-IsAdviser true two_pages (omega arith) mapped_one
      mapped_memory 4096 8192 [] [] [] [] refl refl (omega arith) mapped_one-IsPool

-- Two mapped pages on a list: the first points to the second.
abbrev two_free : Memory
two_free = record {
  bytes = write_ptr (λ _. 0) 4096 12288;
  live = block 12288 (record { size = 8192; align = 4096 }) ∷ big ∷ [];
}

two_free-Chain : Chain two_free.bytes 4096 (4096 ∷ 12288 ∷ [])
unfolding read_ptr read_bytes decode
two_free-Chain = (
  refl,
  λ e. omega (arith, e),
  (
    read-write_ptr (λ _. 0) 4096 12288 (omega arith),
    λ e. omega (arith, e),
    read_ptr-Same 12288 {m = λ _. 0}
        (λ q lo hi. write_ptr_outside (λ _. 0) 4096 12288 q (omega arith)),
  ),
)

first-IsMapped : IsMapped 4096 4096 8192 two_free
first-IsMapped = record {
  start = refl;
  whole = refl;
  base = 4096;
  size = 8192;
  live = List.mem-cons_of_mem _ mem-cons_self;
  from = omega arith;
  to = omega arith;
}

dropped : (madvise_dontneed libc 4096 8192 two_free).0 ≡ ok tt
unfolding madvise_dontneed advise
dropped = refl

madvise_dontneed-cuts_example :
    let (_, n) = madvise_dontneed libc 4096 8192 two_free in
    Chain n.bytes 4096 (4096 ∷ []) × (¬ Chain n.bytes 4096 (4096 ∷ 12288 ∷ []))
madvise_dontneed-cuts_example =
    madvise_dontneed-cuts libc 4096 libc-IsAdviser two_free 4096 4096 12288 [] 8192 (omega arith)
      first-IsMapped two_free-Chain dropped
