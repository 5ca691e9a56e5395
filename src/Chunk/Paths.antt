-- ===== src/Chunk/Paths.antt =====
-- src/chunk.rs: which path `allocate_aligned` takes.
use paged_alloc.Base.{
  ℕ, ◌+◌, ◌-◌, ◌<◌, ◌≤◌, ◌≡◌, inl, inr, ==_cases, leb_cases, lt→ltb, ge→ltb, arith, word,
  saturating_add,
}
use paged_alloc.Chunk.Fit.{IsPacked}
use paged_alloc.Chunk.Allocate.{Path4, zero_path, packed_path, dedicated_path, oversized_path, path}

-- What is known of the request on each path.
abbrev pub Taken : Path4 → (page_size size align : ℕ) → Type 0
Taken zero_path page_size size align = size ≡ 0
Taken packed_path page_size size align = (0 < size) × IsPacked page_size size align
Taken dedicated_path page_size size align = (0 < size) × (size ≤ page_size) × (align ≤ 8)
Taken oversized_path page_size size align = 0 < size

-- No path of `allocate_aligned` is asked for what it cannot do, for a threshold within the page:
-- the packed path has room for the request and its padding on one page, and a page of its own goes
-- to what fits in it with no more than its alignment.
pub path-Taken :
    (page_size threshold size align : ℕ)
    → threshold ≤ page_size
    → page_size + 2 ≤ word
    → Taken (path page_size threshold size align) page_size size align
unfolding path
path-Taken page_size threshold size align half small = elim (==_cases size 0) [
  | inl (zero_size, is) ↦ rw (zero_size, path) is
  | inr (some_size, pos) ↦ elim (leb_cases align 8) [
    | inl (plain, le) ↦ elim (leb_cases size page_size) [
      | inl (_, fits) ↦ elim (leb_cases size threshold) [
        | inl (_, small_size) ↦
            rw
              (some_size, plain, ge→ltb page_size size fits, ge→ltb threshold size small_size, path)
              (omega arith, (fits, inl le))
        | inr (_, big) ↦
            rw (some_size, plain, ge→ltb page_size size fits, lt→ltb threshold size big, path)
              (omega arith, fits, le)
      ]
      | inr (_, over) ↦ rw (some_size, plain, lt→ltb page_size size over, path) (omega arith)
    ]
    | inr (custom, _) ↦ elim (leb_cases size threshold) [
      | inl (fits, le) ↦ elim (leb_cases (saturating_add size (align - 1)) page_size) [
        | inl (padded, within) ↦
            rw (some_size, custom, fits, padded, path)
              (omega arith, (omega arith, inr (omega arith)))
        | inr (over, _) ↦ rw (some_size, custom, fits, over, path) (omega arith)
      ]
      | inr (over, _) ↦ rw (some_size, custom, over, path) (omega arith)
    ]
  ]
]
