-- ===== src/Chunk/Books.antt =====
-- src/chunk.rs: which steps touch the counters of `ChunkPoolStats` and of the tenants, and how.
use paged_alloc.Base.{
  Bool, true, false, ℕ, zero, suc, ◌+◌, ◌≡◌, refl, ap, ◌∙◌, inl, inr, ◌⊎◌, Option, none, some,
  Option-cases, ==_cases, Bool-cases, wrapping_add, as_u32, arith, is_power_of_two, max,
}
use paged_alloc.Alloc.{Layout, Memory, alloc_zeroed, dealloc, from_size_align}
use paged_alloc.Tenant.{on, record_chunk_allocate}
use paged_alloc.Pool.{allocate_raw_page}
use paged_alloc.World.{fail, Act, ◌>>◌, Run, and_then, returned, panicked, aborted, out_of_fuel}
use paged_alloc.Chunk.{
  page_size, State, default_align, PackedPage, ChunkPoolStats, find_arc, remove_arc, OpenPage,
  clone_arc, drop_arc, drop_packed, drop_option, clone_option, new_arc, charge,
}
use paged_alloc.Chunk.Arcs.{Release-cases}
use paged_alloc.Chunk.Builder.{ChunkBuilder}
use paged_alloc.Chunk.Dispatch.{
  refused, room, advance, retire, take_page, open_new_page, find_room, heap_page, new_builder,
  count_packed, count_dedicated, count_oversized, allocate_zero, allocate_packed,
  allocate_dedicated, allocate_oversized,
}
use paged_alloc.Chunk.Allocate.{
  Path4, zero_path, packed_path, dedicated_path, oversized_path, path, run_path, allocate_aligned,
}

-- No counter has changed.
pub record SameBooks (w v : State) : Type 0 where
  pub tenants : v.tenants ≡ w.tenants
  pub stats : v.pool.stats ≡ w.pool.stats

same_books : (w v : State) → v.tenants ≡ w.tenants → v.pool.stats ≡ w.pool.stats → SameBooks w v
same_books w v e f = record { tenants = e; stats = f }

pub SameBooks-trans : {w u v : State} → SameBooks w u → SameBooks u v → SameBooks w v
SameBooks-trans a b = record { tenants = b.tenants ∙ a.tenants; stats = b.stats ∙ a.stats }

clone_arc-SameBooks : (i : ℕ) (w : State) → SameBooks w (clone_arc i w)
unfolding clone_arc
clone_arc-SameBooks i w = elim (Option-cases (find_arc i w.arcs)) [
  | inl e ↦ rw (e, clone_arc) (same_books w w refl refl)
  | inr (a, e) ↦ rw (e, clone_arc) (same_books w _ refl refl)
]

drop_packed-SameBooks : (page : PackedPage) (w : State) → SameBooks w (drop_packed page w)
unfolding drop_packed
drop_packed-SameBooks page w = elim (Release-cases page.release) [
  | inl is ↦ rw is (same_books w _ refl refl)
  | inr (l, is) ↦ elim (Option-cases (dealloc page.buf l w.mem)) [
    | inl e ↦ rw (is, e, drop_packed) (same_books w _ refl refl)
    | inr (m, e) ↦ rw (is, e, drop_packed) (same_books w _ refl refl)
  ]
]

drop_arc-SameBooks : (i : ℕ) (w : State) → SameBooks w (drop_arc i w)
unfolding drop_arc
drop_arc-SameBooks i w = elim (Option-cases (find_arc i w.arcs)) [
  | inl e ↦ rw (e, drop_arc) (same_books w _ refl refl)
  | inr (a, e) ↦ elim (==_cases a.refs 1) [
    | inl (last, _) ↦
        let done = drop_packed-SameBooks a.page (record w { arcs = remove_arc i w.arcs }) in
        rw (e, last, drop_arc) (same_books w _ done.tenants done.stats)
    | inr (more, _) ↦ rw (e, more, drop_arc) (same_books w _ refl refl)
  ]
]

pub clone_option-SameBooks : (i : Option ℕ) (w : State) → SameBooks w (clone_option i w)
clone_option-SameBooks none w = same_books w w refl refl
clone_option-SameBooks (some i) w = clone_arc-SameBooks i w

pub drop_option-SameBooks : (i : Option ℕ) (w : State) → SameBooks w (drop_option i w)
drop_option-SameBooks none w = same_books w w refl refl
drop_option-SameBooks (some i) w = drop_arc-SameBooks i w

-- A call that returns has changed no counter.
abbrev Quiet : {A : Type 0} → State → Run State A → Type 0
Quiet w (returned a v) = SameBooks w v
Quiet w (panicked v) = Unit
Quiet w aborted = Unit
Quiet w out_of_fuel = Unit

retire-SameBooks : (w : State) → SameBooks w (retire w)
unfolding retire
retire-SameBooks w =
    let done =
      drop_option-SameBooks
        (elim w.pool.current [ none ↦ none | some o ↦ some (OpenPage.shared o) ])
        (record w { pool = record w.pool { current = none } }) in
    same_books w (retire w) done.tenants done.stats

fail-Quiet : (b : Bool) (w v : State) → Quiet {A = ℕ} w (fail b v)
fail-Quiet true w v = tt
fail-Quiet false w v = tt

take_page-Quiet : (w : State) → Quiet w (take_page w)
unfolding take_page new_arc
take_page-Quiet w = elim (Option-cases (allocate_raw_page w.pool.pages w.mem)) [
  | inl e ↦ rw (e, take_page) (fail-Quiet w.pool.pages.shared.source.unwinds w (refused w))
  | inr ((p, pages, m), e) ↦ rw (e, take_page) (same_books w _ refl refl)
]

heap_page-Quiet :
    (place : Layout → Memory → ℕ) (l : Layout) (w : State) → Quiet w (heap_page place l w)
unfolding heap_page new_arc
heap_page-Quiet place l w = elim (==_cases (alloc_zeroed place l w.mem).0 0) [
  | inl (e, _) ↦ rw (e, heap_page) tt
  | inr (e, _) ↦ rw (e, heap_page) (same_books w _ refl refl)
]

Quiet-after : {A : Type 0} {w v : State} (r : Run State A) → SameBooks w v → Quiet v r → Quiet w r
Quiet-after (returned a u) same q = SameBooks-trans same q
Quiet-after (panicked u) same q = tt
Quiet-after aborted same q = tt
Quiet-after out_of_fuel same q = tt

and_then-Quiet :
    {A B : Type 0} (w : State) (r : Run State A) (f : A → Act State B)
    → Quiet w r
    → ((a : A) (v : State) → Quiet v (f a v))
    → Quiet w (and_then r f)
and_then-Quiet w (returned a v) f q later = Quiet-after (f a v) q (later a v)
and_then-Quiet w (panicked v) f q later = tt
and_then-Quiet w aborted f q later = tt
and_then-Quiet w out_of_fuel f q later = tt

open_new_page-Quiet : (w : State) → Quiet w (open_new_page w)
unfolding open_new_page
open_new_page-Quiet w =
    and_then-Quiet w (take_page w)
      (λ id v. returned tt (record v {
        pool = record v.pool { current = some (record { shared = id; write_offset = 0 }) };
      }))
      (take_page-Quiet w) (λ id v. same_books v _ refl refl)

advance-SameBooks : (id offset : ℕ) (w : State) → SameBooks w (advance id offset w)
unfolding advance
advance-SameBooks id offset w =
    let opened : State = record w {
      pool = record w.pool { current = some (record { shared = id; write_offset = offset }) };
    } in
    let done = clone_arc-SameBooks id opened in
    same_books w (clone_arc id opened) done.tenants done.stats

pub find_room-Quiet : (fuel size align : ℕ) (w : State) → Quiet w (find_room fuel size align w)
unfolding find_room
find_room-Quiet zero size align w = tt
find_room-Quiet (suc fuel) size align w = elim (Option-cases (room size align w)) [
  | inr ((id, offset), e) ↦ rw (e, find_room) (advance-SameBooks id (offset + size) w)
  | inl e ↦
      rw (e, find_room)
        (Quiet-after ((open_new_page >> find_room fuel size align) (retire w)) (retire-SameBooks w)
          (and_then-Quiet (retire w) (open_new_page (retire w)) (λ _. find_room fuel size align)
            (open_new_page-Quiet (retire w)) (λ _ v. find_room-Quiet fuel size align v)))
]

-- A chunk of `size` bytes has been charged to the tenant `t` and to the pool, `oversized` of them as
-- a block of its own.
pub record Charged (w : State) (t size oversized : ℕ) (v : State) : Type 0 where
  pub tenants : v.tenants ≡ on w.tenants t (λ u. record_chunk_allocate u size)
  pub chunks_in_use : v.pool.stats.chunks_in_use ≡ wrapping_add w.pool.stats.chunks_in_use 1
  pub total_chunks : v.pool.stats.total_chunks ≡ wrapping_add w.pool.stats.total_chunks 1
  pub oversized_bytes :
      ((oversized ≡ 0)
        × (v.pool.stats.oversized_bytes_in_use ≡ w.pool.stats.oversized_bytes_in_use))
      ⊎ (v.pool.stats.oversized_bytes_in_use
          ≡ wrapping_add w.pool.stats.oversized_bytes_in_use oversized)

-- The builder records what was charged for it.
abbrev pub Billed : State → ℕ → ℕ → Run State ChunkBuilder → Type 0
Billed w t size (returned b v) =
    (b.tenant ≡ some t) × (b.capacity ≡ as_u32 size) × Charged w t size b.oversized_bytes v
Billed w t size (panicked v) = Unit
Billed w t size aborted = Unit
Billed w t size out_of_fuel = Unit

and_then-Billed :
    {A : Type 0} (w : State) (t size : ℕ) (r : Run State A) (f : A → Act State ChunkBuilder)
    → Quiet w r
    → ((a : A) (v : State) → SameBooks w v → Billed w t size (f a v))
    → Billed w t size (and_then r f)
and_then-Billed w t size (returned a v) f q later = later a v q
and_then-Billed w t size (panicked v) f q later = tt
and_then-Billed w t size aborted f q later = tt
and_then-Billed w t size out_of_fuel f q later = tt

module _ (t size : ℕ) (w v : State) (same : SameBooks w v) where
  Charged-packed : Charged w t size 0 (count_packed (charge t size v))
  unfolding charge
  Charged-packed = record {
    tenants = ap (λ all. on all t (λ u. record_chunk_allocate u size)) same.tenants;
    chunks_in_use = ap (λ st. wrapping_add (ChunkPoolStats.chunks_in_use st) 1) same.stats;
    total_chunks = ap (λ st. wrapping_add (ChunkPoolStats.total_chunks st) 1) same.stats;
    oversized_bytes = inl (refl, ap ChunkPoolStats.oversized_bytes_in_use same.stats);
  }

  Charged-dedicated : Charged w t size 0 (count_dedicated (charge t size v))
  unfolding charge
  Charged-dedicated = record {
    tenants = Charged-packed.tenants;
    chunks_in_use = Charged-packed.chunks_in_use;
    total_chunks = Charged-packed.total_chunks;
    oversized_bytes = Charged-packed.oversized_bytes;
  }

  Charged-zero : Charged w t size 0 (charge t size v)
  unfolding charge
  Charged-zero = record {
    tenants = Charged-packed.tenants;
    chunks_in_use = Charged-packed.chunks_in_use;
    total_chunks = Charged-packed.total_chunks;
    oversized_bytes = Charged-packed.oversized_bytes;
  }

  Charged-oversized : Charged w t size size (count_oversized size (charge t size v))
  unfolding charge
  Charged-oversized = record {
    tenants = Charged-packed.tenants;
    chunks_in_use = Charged-packed.chunks_in_use;
    total_chunks = Charged-packed.total_chunks;
    oversized_bytes =
        inr (ap (λ st. wrapping_add (ChunkPoolStats.oversized_bytes_in_use st) size) same.stats);
  }

module _ (place : Layout → Memory → ℕ) (t size align : ℕ) (w : State) where
  packed-Billed : Billed w t size (allocate_packed t size align w)
  unfolding allocate_packed
  packed-Billed =
      and_then-Billed w t size (find_room 2 size align w)
        (λ r v. returned (new_builder (some r.0) t 0 r.1 size) (count_packed (charge t size v)))
        (find_room-Quiet 2 size align w) (λ r v same. (refl, refl, Charged-packed t size w v same))

  dedicated-Billed : Billed w t size (allocate_dedicated t size w)
  unfolding allocate_dedicated
  dedicated-Billed =
      and_then-Billed w t size (take_page w)
        (λ id v. returned (new_builder (some id) t 0 0 size) (count_dedicated (charge t size v)))
        (take_page-Quiet w) (λ id v same. (refl, refl, Charged-dedicated t size w v same))

  oversized-Billed : Billed w t size (allocate_oversized place t size align w)
  unfolding allocate_oversized
  oversized-Billed = elim (Option-cases (from_size_align size (max align default_align))) [
    | inl e ↦ rw (e, allocate_oversized) tt
    | inr (l, e) ↦
        rw (e, allocate_oversized)
          (and_then-Billed w t size (heap_page place l w)
            (λ id v.
              returned (new_builder (some id) t size 0 size)
                (count_oversized size (charge t size v)))
            (heap_page-Quiet place l w)
            (λ id v same. (refl, refl, Charged-oversized t size w v same)))
  ]

  zero-Billed : size ≡ 0 → Billed w t size (allocate_zero t w)
  unfolding allocate_zero
  zero-Billed is = rw is (refl, refl, Charged-zero t 0 w w (same_books w w refl refl))

path-zero :
    (page_size threshold size align : ℕ)
    → path page_size threshold size align ≡ zero_path
    → size ≡ 0
unfolding path
path-zero page_size threshold size align e = ground arith

module _ (place : Layout → Memory → ℕ) (t size align : ℕ) (w : State) where
  run_path-Billed :
      (taken : Path4)
      → (taken ≡ zero_path → size ≡ 0)
      → Billed w t size (run_path place t size align taken w)
  run_path-Billed zero_path is = zero-Billed place t size align w (is refl)
  run_path-Billed packed_path is = packed-Billed place t size align w
  run_path-Billed dedicated_path is = dedicated-Billed place t size align w
  run_path-Billed oversized_path is = oversized-Billed place t size align w

  -- Whatever the path.
  pub allocate_aligned-Billed : Billed w t size (allocate_aligned place t size align w)
  unfolding allocate_aligned
  allocate_aligned-Billed = elim (Bool-cases (is_power_of_two align)) [
    | inl e ↦
        rw (e, allocate_aligned)
          (run_path-Billed (path (page_size w) w.pool.threshold size align)
            (path-zero (page_size w) w.pool.threshold size align))
    | inr e ↦ rw (e, allocate_aligned) tt
  ]
