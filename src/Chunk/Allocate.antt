-- ===== src/Chunk/Allocate.antt =====
-- src/chunk.rs: `ChunkPool::allocate_aligned`, which picks a path, and the public methods over it.
use paged_alloc.Base.{
  ℕ, ◌-◌, ◌&&◌, Option, none, some, List, [], ◌∷◌, leb, ltb, ◌==◌, if◌then◌else◌, length,
  is_power_of_two, saturating_add,
}
use paged_alloc.Alloc.{Layout, Memory}
use paged_alloc.Pool
use paged_alloc.World.{returned, panicked, fail, Act, panic, unwinding, ◌>>=◌, ◌>>◌}
use paged_alloc.Chunk.{State, page_size, default_align}
use paged_alloc.Chunk.Builder.{ChunkBuilder, Chunk, write_at, fill, set_len, seal, drop_builder}
use paged_alloc.Chunk.Dispatch.{
  allocate_zero, allocate_packed, allocate_dedicated, allocate_oversized,
}

-- What the tests of `allocate_aligned` choose between.
pub data Path4 : Type 0 where
  zero_path packed_path dedicated_path oversized_path : Path4

-- The tests of `allocate_aligned` after its assertion.
unfoldable pub path : (page_size threshold size align : ℕ) → Path4
path page_size threshold size align =
    if size == 0
    then zero_path
    else (if leb align default_align
        then (if ltb page_size size
            then oversized_path
            else (if ltb threshold size then dedicated_path else packed_path))
        else (if leb size threshold && leb (saturating_add size (align - 1)) page_size
            then packed_path
            else oversized_path))

-- The call that each path is.
abbrev pub run_path : (Layout → Memory → ℕ) → ℕ → ℕ → ℕ → Path4 → Act State ChunkBuilder
run_path place t size align zero_path = allocate_zero t
run_path place t size align packed_path = allocate_packed t size align
run_path place t size align dedicated_path = allocate_dedicated t size
run_path place t size align oversized_path = allocate_oversized place t size align

-- `ChunkPool::allocate_aligned`.
unfoldable pub allocate_aligned : (Layout → Memory → ℕ) → ℕ → ℕ → ℕ → Act State ChunkBuilder
allocate_aligned place t size align w =
    if is_power_of_two align
    then run_path place t size align (path (page_size w) w.pool.threshold size align) w
    else panicked w

-- `ChunkPool::allocate`.
unfoldable pub allocate : (Layout → Memory → ℕ) → ℕ → ℕ → Act State ChunkBuilder
allocate place t size = allocate_aligned place t size default_align

-- The rest of `alloc_from` once it has its builder. `copy_from_slice` panics if the lengths differ.
unfoldable pub copy_in : List ℕ → ChunkBuilder → Act State Chunk
copy_in [] b = seal b
copy_in (x ∷ xs) b = unwinding (drop_builder b) (do
  if b.capacity == length (x ∷ xs) then write_at 0 (x ∷ xs) b else panic
  b' ← set_len (length (x ∷ xs)) b
  seal b')

-- `ChunkPool::alloc_from`.
unfoldable pub alloc_from : (Layout → Memory → ℕ) → ℕ → List ℕ → Act State Chunk
alloc_from place t bs = allocate place t (length bs) >>= copy_in bs

-- `ChunkPool::alloc_with`.
unfoldable pub alloc_with :
    (Layout → Memory → ℕ) → ℕ → ℕ → (List ℕ → Option (List ℕ × Unit {0})) → Act State Chunk
alloc_with place t size init = do
  b ← allocate place t size
  unwinding (drop_builder b) (do fill init b; b' ← set_len size b; seal b')

-- `ChunkPool::alloc_with_len`.
unfoldable pub alloc_with_len :
    (Layout → Memory → ℕ) → ℕ → ℕ → (List ℕ → Option (List ℕ × ℕ)) → Act State Chunk
alloc_with_len place t capacity init = do
  b ← allocate place t capacity
  unwinding (drop_builder b) (do len ← fill init b; b' ← set_len len b; seal b')

-- `ChunkPool::prewarm`.
unfoldable pub prewarm : ℕ → Act State (Unit {0})
prewarm k w = elim (Pool.prewarm k w.pool.pages w.mem) [
  | none ↦
      let (pages, m) = Pool.prewarm_so_far k w.pool.pages w.mem in
      fail w.pool.pages.shared.source.unwinds
        (record w { pool = record w.pool { pages = pages }; mem = m })
  | some (pages, m) ↦ returned tt (record w { pool = record w.pool { pages = pages }; mem = m })
]
