-- ===== src/Chunk/Create.antt =====
-- The constructors of `ChunkPool` (src/chunk.rs).
use paged_alloc.Base.{ℕ, ◌*◌, ◌≡◌, ap, sym, subst, Option, some, []}
use paged_alloc.Alloc.{Layout, Memory}
use paged_alloc.Alloc.Sound.{IsSound}
use paged_alloc.Alloc.Zeroed.{IsAllocator}
use paged_alloc.Source.{PageSource}
use paged_alloc.Source.Heap.{HeapSource-Contract}
use paged_alloc.Tenant.{Tenants}
use paged_alloc.Pool
use paged_alloc.Pool.{PagePool, ◌>>=◌, >>=-eq_some}
use paged_alloc.Pool.Create
use paged_alloc.Pool.Create.{Created, with_capacity-Created}
use paged_alloc.Chunk.{ChunkPool, from_pool}
use paged_alloc.Chunk.Holds.{IsChunks, new_state, from_pool-IsChunks}

-- `ChunkPool::DEFAULT_PAGE_SIZE`.
abbrev pub default_page_size : ℕ
default_page_size = 16 * 1024

unfoldable pub with_page_size : (Layout → Memory → ℕ) → ℕ → Option ChunkPool
with_page_size place page_size = do pages ← Create.new place page_size; some (from_pool pages)

unfoldable pub new : (Layout → Memory → ℕ) → Option ChunkPool
new place = with_page_size place default_page_size

unfoldable pub with_capacity : (Layout → Memory → ℕ) → ℕ → ℕ → Memory → Option (ChunkPool × Memory)
with_capacity place page_size num_pages m = do
  (pages, n) ← Create.with_capacity place page_size num_pages m
  some (from_pool pages, n)

unfoldable pub with_source : PageSource → Option ChunkPool
with_source source = do pages ← Pool.with_source source; some (from_pool pages)

module _ {place : Layout → Memory → ℕ} (good : IsAllocator place) where
  -- Over an allocator that keeps its documented promises, `ChunkPool::with_capacity(n, k)` that
  -- returns has an underlying pool with k free pages of n bytes and nothing in use, and nothing has
  -- been handed out; the invariants of both pools hold.
  pub with_capacity-IsChunks :
      (n k : ℕ) (m m' : Memory) (pool : ChunkPool) (tenants : Tenants)
      → IsSound m
      → with_capacity place n k m ≡ some (pool, m')
      → (pages : PagePool) × (made : Created good n k m pages m') × (pool ≡ from_pool pages)
        × IsChunks
            (HeapSource-Contract good made.source made.is_heap)
            (record (new_state pages m' tenants) { pool = pool })
            made.free
            []
            m.live
            []
  unfolding with_capacity
  with_capacity-IsChunks n k m m' pool tenants sound e =
      let ((pages, m''), made, is) =
        >>=-eq_some (Create.with_capacity place n k m) (λ r. some (from_pool r.0, r.1)) e in
      let same : (from_pool pages, m'') ≡ (pool, m') = cc in
      let made' =
        subst (λ (r : ChunkPool × Memory). Create.with_capacity place n k m ≡ some (pages, r.1))
          same made in
      let created = with_capacity-Created good n k m m' pages sound made' in
      (
        pages,
        created,
        ap (λ (r : ChunkPool × Memory). r.0) (sym same),
        subst
            (λ (r : ChunkPool × Memory).
              IsChunks (HeapSource-Contract good created.source created.is_heap)
                (record (new_state pages m' tenants) { pool = r.0 }) created.free [] m.live [])
            same
            (from_pool-IsChunks (HeapSource-Contract good created.source created.is_heap) pages m'
              tenants created.free [] m.live created.holds),
      )
