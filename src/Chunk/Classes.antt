-- ===== src/Chunk/Classes.antt =====
-- src/chunk.rs: the three classes of sizes of `allocate_aligned`, by the buffer that each gets.
use paged_alloc.Base.{ℕ, ◌+◌, ◌<◌, ◌≤◌, ◌≡◌, ◌⊎◌, none, some, as_u32, max}
use paged_alloc.Pool.{allocate_raw_page}
use paged_alloc.World.{Run, returned, panicked, aborted, out_of_fuel}
use paged_alloc.Chunk.{State, page_size, default_align, to_heap}
use paged_alloc.Chunk.Builder.{ChunkBuilder}
use paged_alloc.Chunk.Carved.{page_of}
use paged_alloc.Chunk.Claim.{page_at}
use paged_alloc.Chunk.Dispatch.{room}

-- Small enough for a page that others share, with room for the padding.
abbrev pub IsSmall : ℕ → ℕ → ℕ → ℕ → Type 0
IsSmall page_size threshold size align =
    (size ≤ threshold)
    × (((align ≤ 8) × (size ≤ page_size)) ⊎ ((8 < align) × (size + align ≤ page_size + 1)))

abbrev pub IsMedium : ℕ → ℕ → ℕ → ℕ → Type 0
IsMedium page_size threshold size align = (threshold < size) × (size ≤ page_size) × (align ≤ 8)

abbrev pub IsLarge : ℕ → ℕ → ℕ → ℕ → Type 0
IsLarge page_size threshold size align =
    ((align ≤ 8) × (page_size < size))
    ⊎ ((8 < align) × ((threshold < size) ⊎ (page_size + 1 < size + align)))

-- What holds of the result of a call, if it returns.
abbrev OnReturn : {A : Type 0} → (A → State → Type 0) → Run State A → Type 0
OnReturn P (returned b v) = P b v
OnReturn P (panicked v) = Unit
OnReturn P aborted = Unit
OnReturn P out_of_fuel = Unit

-- The range just before the cursor of the open page.
pub record Shared (size : ℕ) (b : ChunkBuilder) (v : State) : Type 0 where
  pub id : ℕ
  pub start : ℕ
  pub packed : b.packed ≡ some id
  pub at : b.offset ≡ as_u32 start
  pub open_page : v.pool.current ≡ some (record { shared = id; write_offset = start + size })

-- Where the open page has room, the range is on it, and no page is taken.
abbrev pub Reused : State → ℕ → ℕ → ChunkBuilder → State → Type 0
Reused w size align b v =
    (room size align w ≡ none)
    ⊎ ((found : ℕ × ℕ) × (room size align w ≡ some found)
        × (b.packed ≡ some found.0)
        × (b.offset ≡ as_u32 found.1)
        × (v.pool.pages ≡ w.pool.pages)
        × (v.mem ≡ w.mem))

-- A page of its own; the open page stays as it is.
pub record Own (w : State) (b : ChunkBuilder) (v : State) : Type 0 where
  pub packed : b.packed ≡ some w.next_arc
  pub at : b.offset ≡ 0
  pub buf : ℕ
  pub page : page_of w.next_arc v.arcs ≡ some (page_at buf)
  pub taken : allocate_raw_page w.pool.pages w.mem ≡ some (buf, v.pool.pages, v.mem)
  pub open_page : v.pool.current ≡ w.pool.current

-- A block from the global allocator, of the size that was asked for; the pages stay as they are.
pub record Heap (w : State) (size align : ℕ) (b : ChunkBuilder) (v : State) : Type 0 where
  pub packed : b.packed ≡ some w.next_arc
  pub at : b.offset ≡ 0
  pub buf : ℕ
  pub block :
      page_of w.next_arc v.arcs
      ≡ some (record {
        buf = buf;
        release = to_heap (record { size = size; align = max align default_align });
      })
  pub open_page : v.pool.current ≡ w.pool.current
  pub pages : v.pool.pages ≡ w.pool.pages

-- What an advanced cursor leaves.
record Advanced (id offset : ℕ) (w v : State) : Type 0 where
  pages : v.pool.pages ≡ w.pool.pages
  mem : v.mem ≡ w.mem
  current : v.pool.current ≡ some (record { shared = id; write_offset = offset })

-- The cursor stands behind the range.
abbrev IsBehind : ℕ → ℕ × ℕ → State → Type 0
IsBehind size (id, start) v =
    v.pool.current ≡ some (record { shared = id; write_offset = start + size })

-- Which class the size is in, and the buffer that it gets.
abbrev pub ByClass : ℕ → ℕ → State → ChunkBuilder → State → Type 0
ByClass size align w b v =
    (IsSmall (page_size w) w.pool.threshold size align
      × (Shared size b v × Reused w size align b v))
    ⊎ (IsMedium (page_size w) w.pool.threshold size align × Own w b v)
    ⊎ (IsLarge (page_size w) w.pool.threshold size align × Heap w size align b v)
