-- ===== src/Pool/Create.antt =====
-- `PagePool::new` and `PagePool::with_capacity` (src/pool.rs), over the global allocator.
use paged_alloc.Base.{ℕ, ◌≡◌, Option, some, List, [], length, arith}
use paged_alloc.Alloc.{Layout, Memory}
use paged_alloc.Alloc.Sound.{IsSound}
use paged_alloc.Alloc.Zeroed.{IsAllocator}
use paged_alloc.Source.Heap
use paged_alloc.Source.Heap.{HeapSource, IsHeap, as_source, new-IsHeap, HeapSource-Contract}
use paged_alloc.Pool.{PagePool, with_source, prewarm, ◌>>=◌, >>=-eq_some}
use paged_alloc.Pool.Invariant.{IsPool}
use paged_alloc.Pool.Prewarm.{with_source-IsPool, prewarm-IsPool}

-- `none` is a failed assertion, or a layout that cannot be.
unfoldable pub new : (Layout → Memory → ℕ) → ℕ → Option PagePool
new place page_size = do source ← Heap.new page_size; with_source (as_source place source)

unfoldable pub with_capacity : (Layout → Memory → ℕ) → ℕ → ℕ → Memory → Option (PagePool × Memory)
with_capacity place page_size num_pages m = do pool ← new place page_size; prewarm num_pages pool m

module _ {place : Layout → Memory → ℕ} (good : IsAllocator place) where
  -- A pool of `k` free pages and nothing else, whose pages are `n` bytes long.
  pub record Created (n k : ℕ) (m : Memory) (pool : PagePool) (m' : Memory) : Type 0 where
    pub source : HeapSource
    pub is_heap : IsHeap source
    pub size : source.page_size ≡ n
    pub free : List ℕ
    pub pages : length free ≡ k
    pub holds : IsPool (HeapSource-Contract good source is_heap) pool m' free [] [] m.live

  pub new-Created :
      (n : ℕ) (m : Memory) (pool : PagePool)
      → IsSound m
      → new place n ≡ some pool
      → Created n 0 m pool m
  unfolding new
  new-Created n m pool sound e =
      let (source, made, accepted) =
        >>=-eq_some (Heap.new n) (λ h. with_source (as_source place h)) e in
      let (is, size) = new-IsHeap n source made in
      record {
        source = source;
        is_heap = is;
        size = size;
        free = [];
        pages = omega arith;
        holds = with_source-IsPool (HeapSource-Contract good source is) m pool sound accepted;
      }

  -- `with_capacity(n, k)` that returns has `k` free pages of `n` bytes.
  pub with_capacity-Created :
      (n k : ℕ) (m m' : Memory) (pool : PagePool)
      → IsSound m
      → with_capacity place n k m ≡ some (pool, m')
      → Created n k m pool m'
  unfolding with_capacity
  with_capacity-Created n k m m' pool sound e =
      let (empty, made, warm) = >>=-eq_some (new place n) (λ q. prewarm k q m) e in
      let was = new-Created n m empty sound made in
      let (free', size, kept, _) =
        prewarm-IsPool (HeapSource-Contract good was.source was.is_heap) k empty pool m m' was.free
          [] [] m.live was.holds warm in
      record {
        source = was.source;
        is_heap = was.is_heap;
        size = was.size;
        free = free';
        pages = omega (arith, size, was.pages);
        holds = kept;
      }
