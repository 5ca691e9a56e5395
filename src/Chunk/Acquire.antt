-- ===== src/Chunk/Acquire.antt =====
-- src/chunk.rs: a buffer from the pool, or from the global allocator, behind a new `Arc`.
use paged_alloc.Base.{
  ℕ, suc, ◌<◌, ◌%◌, ◌≡◌, ◌≢◌, refl, ap, none, subst, inl, inr, ◌⊎◌, List, [], ◌∷◌, ◌++◌, All,
  All-map, ==_cases, arith,
}
use paged_alloc.Alloc.{Layout, Block, Memory, alloc_zeroed}
use paged_alloc.Alloc.Zeroed.{IsAllocator, alloc_zeroed_lem}
use paged_alloc.Source.{PageSource, Contract}
use paged_alloc.Pool.{PagePool}
use paged_alloc.Pool.Invariant.{IsPool}
use paged_alloc.Pool.Reuse.{left_free, left_queued, allocate_raw_page_cases}
use paged_alloc.Pool.Rest.{rest-Allocated}
use paged_alloc.World.{fail, returned, aborted}
use paged_alloc.Chunk.{State, ArcPage, PackedPage, to_pool, to_heap, new_arc}
use paged_alloc.Chunk.Arcs.{refs_of, refs_of_none, own_page, own_block, pooled, boxed}
use paged_alloc.Chunk.Invariant.{IsCounted}
use paged_alloc.Chunk.Dispatch.{refused, take_page, heap_page}

-- The `Arc` that the next call makes.
abbrev pub first_ref : State → PackedPage → ArcPage
first_ref w page = record { id = w.next_arc; refs = 1; page = page }

-- A new `Arc` over a page, in a state with other pages and memory.
abbrev pub with_arc : State → PackedPage → PagePool → Memory → State
with_arc w page pages m = record w {
  pool = record w.pool { pages = pages };
  mem = m;
  arcs = first_ref w page ∷ w.arcs;
  next_arc = suc w.next_arc;
}

module _ {s : PageSource} (c : Contract s) (free queued : List ℕ) (rest : List Block) where
  pub arrived :
      (w : State) (page : PackedPage) (pages : PagePool) (m : Memory) (free' queued' hs : List ℕ)
      → IsCounted c w free queued rest hs
      → IsPool c pages m free' queued'
          (own_page page ++ pooled w.arcs)
          (own_block page ++ boxed w.arcs ++ rest)
      → IsCounted c (with_arc w page pages m) free' queued' rest (w.next_arc ∷ hs)
  arrived w page pages m free' queued' hs k left = record {
    pool = left;
    counts = λ j. ground (
      arith,
      k.counts j,
      (λ (e : w.next_arc ≡ j). subst (λ (t : ℕ). refs_of t w.arcs ≡ 0) e unused),
    );
    alive = (omega arith, k.alive);
    distinct = (others, k.distinct);
    fresh = (omega arith, All-map (λ a lt. omega arith) w.arcs k.fresh);
    no_fault = k.no_fault;
  }
    where
      others : All (λ a. a.id ≢ w.next_arc) w.arcs
      others = All-map (λ a lt e. omega arith) w.arcs k.fresh

      unused : refs_of w.next_arc w.arcs ≡ 0
      unused = refs_of_none w.next_arc w.arcs others

  -- A page from the pool: the source fails with no page at hand, or there is a new `Arc` with one
  -- handle on it.
  pub take_page_cases :
      (w : State) (hs : List ℕ)
      → IsCounted c w free queued rest hs
      → ((free ≡ [])
          × (queued ≡ [])
          × (s.allocate w.mem ≡ none)
          × (take_page w ≡ fail s.unwinds (refused w)))
        ⊎ ((p : ℕ) × (pages : PagePool) × (m : Memory) × (take_page w
              ≡ returned w.next_arc (with_arc w (record { buf = p; release = to_pool }) pages m))
            × IsCounted c
                (with_arc w (record { buf = p; release = to_pool }) pages m)
                (left_free free queued)
                (left_queued free queued)
                rest
                (w.next_arc ∷ hs))
  unfolding take_page new_arc
  take_page_cases w hs k =
      elim (allocate_raw_page_cases c w.pool.pages w.mem free queued _ _ k.pool) [
        | inl (e, f, failed, source) ↦ inl (
          e,
          f,
          source,
          rw (failed, take_page)
              (ap (λ (o : PageSource). fail o.unwinds (refused w)) k.pool.source),
        )
        | inr (p, pages, m, took, left) ↦
            inr (p, pages, m, rw (took, take_page) refl, arrived w _ pages m _ _ hs k left)
      ]

  -- A block of its own from the global allocator.
  pub heap_page_cases :
      {place : Layout → Memory → ℕ} (good : IsAllocator place) (w : State) (l : Layout)
      (hs : List ℕ)
      → 0 < l.size
      → IsCounted c w free queued rest hs
      → (heap_page place l w ≡ aborted)
        ⊎ ((p : ℕ) × (m : Memory) × (p % l.align ≡ 0)
            × (heap_page place l w
                ≡ returned w.next_arc
                    (with_arc w (record { buf = p; release = to_heap l }) w.pool.pages m))
            × IsCounted c
                (with_arc w (record { buf = p; release = to_heap l }) w.pool.pages m)
                free
                queued
                rest
                (w.next_arc ∷ hs))
  unfolding heap_page new_arc
  heap_page_cases {place} good w l hs size k = elim (==_cases ((alloc_zeroed place l w.mem).0) 0) [
    | inl (null, _) ↦ inl (rw (null, heap_page) refl)
    | inr (found, ne) ↦
        let (aligned, new) = alloc_zeroed_lem good l w.mem k.pool.owns.sound size ne in
        inr (
          _,
          _,
          aligned,
          rw (found, heap_page) refl,
          arrived w _ w.pool.pages _ free queued hs k (rest-Allocated c w.pool.pages _ new k.pool),
        )
  ]
