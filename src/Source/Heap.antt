-- ===== src/Source/Heap.antt =====
-- src/source.rs: `HeapSource`, and the contract of its trait.
use paged_alloc.Base.{
  ℕ, ◌%◌, ◌≤◌, ◌≡◌, ◌≢◌, refl, ap, subst, false, Option, none, some, leb, ◌==◌, if◌then◌else◌, max,
  arith,
}
use paged_alloc.Memory.{ptr_size}
use paged_alloc.Alloc.{Layout, Memory, block, alloc_zeroed, dealloc, from_size_align}
use paged_alloc.Alloc.Sound.{IsSound, dealloc_lem}
use paged_alloc.Alloc.Zeroed.{Allocated, IsAllocator, alloc_zeroed_lem}
use paged_alloc.Source.{PageSource, Contract}

pub record HeapSource : Type 0 where
  pub page_size : ℕ
  pub layout : Layout

-- `align_of::<*mut u8>().max(8)`.
abbrev pub heap_align : ℕ
heap_align = max ptr_size 8

-- `HeapSource::new`: `none` is a failed assertion, or a size that no layout has.
unfoldable pub new : ℕ → Option HeapSource
new page_size =
    if leb ptr_size page_size
    then elim (from_size_align page_size heap_align) [
      | none ↦ none
      | some layout ↦ some (record { page_size = page_size; layout = layout })
    ]
    else none

-- `allocate`: a null pointer goes to `handle_alloc_error`, which does not return.
unfoldable pub allocate : (Layout → Memory → ℕ) → HeapSource → Memory → Option (ℕ × Memory)
allocate place s m =
    let (p, n) = alloc_zeroed place s.layout m in if p == 0 then none else some (p, n)

-- The source as a trait object; `prefault` is the trait's default, which does nothing.
unfoldable pub as_source : (Layout → Memory → ℕ) → HeapSource → PageSource
as_source place s = record {
  page_size = s.page_size;
  unwinds = false;
  allocate = allocate place s;
  release = λ p. dealloc p s.layout;
  prefault = λ p m. m;
}

-- What `new` establishes.
pub record IsHeap (s : HeapSource) : Type 0 where
  pub size : s.layout.size ≡ s.page_size
  pub align : s.layout.align ≡ 8
  pub holds_pointer : ptr_size ≤ s.page_size

pub new-IsHeap : (n : ℕ) (s : HeapSource) → new n ≡ some s → IsHeap s × (s.page_size ≡ n)
unfolding new from_size_align
new-IsHeap n s e = ground arith

allocate-eq_some :
    (place : Layout → Memory → ℕ) (s : HeapSource) (m n : Memory) (p : ℕ)
    → allocate place s m ≡ some (p, n)
    → (alloc_zeroed place s.layout m ≡ (p, n)) × ((alloc_zeroed place s.layout m).0 ≢ 0)
unfolding allocate
allocate-eq_some place s m n p e = ground arith

allocate_lem :
    {place : Layout → Memory → ℕ} (good : IsAllocator place) (s : HeapSource)
    → IsHeap s
    → (m n : Memory) (p : ℕ) → IsSound m
    → allocate place s m ≡ some (p, n)
    → (p % ptr_size ≡ 0) × Allocated (block p s.layout) m n
allocate_lem {place} good s is m n p sound e =
    let (same, ne) = allocate-eq_some place s m n p e in
    let (aligned, new) = alloc_zeroed_lem good s.layout m sound (omega arith) ne in
    (
      omega (
        arith,
        subst (λ (t : ℕ × Memory). t.0 % s.layout.align ≡ 0) same aligned,
        ap (λ (t : ℕ). p % t) is.align,
      ),
      subst (λ (t : ℕ × Memory). Allocated (block t.0 s.layout) m t.1) same new,
    )
  where
    open is use {size, holds_pointer}

-- A `HeapSource` over an allocator that keeps its documented promises keeps the contract of
-- `PageSource`.
pub HeapSource-Contract :
    {place : Layout → Memory → ℕ} (good : IsAllocator place) (s : HeapSource)
    → IsHeap s
    → Contract (as_source place s)
unfolding as_source
HeapSource-Contract good s is = record {
  layout = s.layout;
  size = is.size;
  allocates = allocate_lem good s is;
  releases = λ m p h. dealloc_lem p s.layout m h;
  prefaults = λ m p h. record { live = refl; same = λ q out. refl };
}
