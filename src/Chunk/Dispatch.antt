-- ===== src/Chunk/Dispatch.antt =====
-- src/chunk.rs: `ChunkPool::allocate_aligned` and its four paths. `place` is where the global
-- allocator puts a block.
use paged_alloc.Base.{
  ℕ, zero, suc, ◌+◌, Option, none, some, leb, ◌==◌, if◌then◌else◌, max, wrapping_add, wrapping_sub,
  saturating_add, as_u32,
}
use paged_alloc.Alloc.{Layout, Memory, alloc_zeroed, from_size_align}
use paged_alloc.Pool.{charged, allocate_raw_page}
use paged_alloc.World.{fail, returned, aborted, out_of_fuel, Act, expect, ◌>>=◌, ◌>>◌}
use paged_alloc.Chunk.{
  State, to_pool, to_heap, page_size, default_align, align_up, new_arc, clone_arc, drop_option,
  find_arc, with_stats, charge,
}
use paged_alloc.Chunk.Builder.{ChunkBuilder}

-- The test of the loop in `allocate_packed`: the aligned offset at which `size` bytes fit.
unfoldable pub fit : (page_size buf write_offset size align : ℕ) → Option ℕ
fit page_size buf write_offset size align =
    let aligned_offset = wrapping_sub (align_up (wrapping_add buf write_offset) align) buf in
    if leb (saturating_add aligned_offset size) page_size then some aligned_offset else none

-- The same on the open page, if there is one: its `Arc` and the offset.
unfoldable pub room : ℕ → ℕ → State → Option (ℕ × ℕ)
room size align w = elim w.pool.current [
  | none ↦ none
  | some open_page ↦ elim (find_arc open_page.shared w.arcs) [
    | none ↦ none
    | some a ↦ elim (fit (page_size w) a.page.buf open_page.write_offset size align) [
      | none ↦ none
      | some offset ↦ some (open_page.shared, offset)
    ]
  ]
]

-- Advancing the cursor, and the clone that the chunk keeps.
unfoldable pub advance : ℕ → ℕ → State → State
advance id write_offset w = clone_arc id (record w {
  pool = record w.pool { current = some (record { shared = id; write_offset = write_offset }) };
})

-- `self.current = None`: the pool's handle on the open page drops.
unfoldable pub retire : State → State
retire w =
    drop_option (elim w.pool.current [ none ↦ none | some open_page ↦ some open_page.shared ])
      (record w { pool = record w.pool { current = none } })

-- Where the source fails: `allocate_fresh` has counted the page already.
abbrev pub refused : State → State
refused w = record w { pool = record w.pool { pages = charged w.pool.pages } }

-- A page from the pool behind a new `Arc`.
unfoldable pub take_page : Act State ℕ
take_page w = elim (allocate_raw_page w.pool.pages w.mem) [
  | none ↦ fail w.pool.pages.shared.source.unwinds (refused w)
  | some (p, pages, m) ↦
      let (id, w') =
        new_arc (record { buf = p; release = to_pool })
          (record w { pool = record w.pool { pages = pages }; mem = m }) in
      returned id w'
]

-- `ChunkPool::open_new_page`.
unfoldable pub open_new_page : Act State (Unit {0})
open_new_page = do
  id ← take_page
  λ w. returned tt (record w {
    pool = record w.pool { current = some (record { shared = id; write_offset = 0 }) };
  })

-- The loop of `allocate_packed`.
unfoldable pub find_room : ℕ → ℕ → ℕ → Act State (ℕ × ℕ)
find_room zero size align w = out_of_fuel
find_room (suc fuel) size align w = elim (room size align w) [
  | some (id, offset) ↦ returned (id, offset) (advance id (offset + size) w)
  | none ↦ (open_new_page >> find_room fuel size align) (retire w)
]

-- A fresh builder.
abbrev pub new_builder : Option ℕ → ℕ → ℕ → ℕ → ℕ → ChunkBuilder
new_builder packed t oversized offset size = record {
  packed = packed;
  tenant = some t;
  oversized_bytes = oversized;
  offset = as_u32 offset;
  capacity = as_u32 size;
  len = 0;
}

unfoldable pub allocate_zero : ℕ → Act State ChunkBuilder
allocate_zero t w = returned (new_builder none t 0 0 0) (charge t 0 w)

-- Two rounds of the loop are enough: a fresh page has room.
abbrev pub packed_rounds : ℕ
packed_rounds = 2

abbrev pub count_packed : State → State
count_packed w =
    with_stats w
      (record w.pool.stats { packed_allocations = wrapping_add w.pool.stats.packed_allocations 1 })

abbrev pub count_dedicated : State → State
count_dedicated w = with_stats w (record w.pool.stats {
  dedicated_allocations = wrapping_add w.pool.stats.dedicated_allocations 1;
})

abbrev pub count_oversized : ℕ → State → State
count_oversized size w = with_stats w (record w.pool.stats {
  oversized_allocations = wrapping_add w.pool.stats.oversized_allocations 1;
  oversized_bytes_in_use = wrapping_add w.pool.stats.oversized_bytes_in_use size;
})

unfoldable pub allocate_packed : ℕ → ℕ → ℕ → Act State ChunkBuilder
allocate_packed t size align = do
  (id, offset) ← find_room packed_rounds size align
  λ w. returned (new_builder (some id) t 0 offset size) (count_packed (charge t size w))

unfoldable pub allocate_dedicated : ℕ → ℕ → Act State ChunkBuilder
allocate_dedicated t size = do
  id ← take_page
  λ w. returned (new_builder (some id) t 0 0 size) (count_dedicated (charge t size w))

-- A block from the global allocator behind a new `Arc`.
unfoldable pub heap_page : (Layout → Memory → ℕ) → Layout → Act State ℕ
heap_page place layout w =
    let (p, m) = alloc_zeroed place layout w.mem in
    if p == 0
    then aborted
    else (let (id, w') =
          new_arc (record { buf = p; release = to_heap layout }) (record w { mem = m }) in
        returned id w')

-- `ChunkPool::allocate_oversized`: a block of its own, with an explicit layout.
unfoldable pub allocate_oversized : (Layout → Memory → ℕ) → ℕ → ℕ → ℕ → Act State ChunkBuilder
allocate_oversized place t size align = do
  layout ← expect (from_size_align size (max align default_align))
  id ← heap_page place layout
  λ w. returned (new_builder (some id) t size 0 size) (count_oversized size (charge t size w))
