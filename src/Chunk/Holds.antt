-- ===== src/Chunk/Holds.antt =====
-- The invariant of a `ChunkPool` with the builders and chunks that it has handed out (src/chunk.rs):
-- counted handles, and bytes that no two of them share.
use mathlib.Core.List.{Mem, mem-cons_self, mem-cons}
use mathlib.Core.List
use mathlib.Core.Logic.Or
use native.Mathlib.Bridge.{le_prop}
use paged_alloc.Base.{
  ℕ, ◌<◌, ◌≡◌, ◌≢◌, refl, ap, sym, subst, Option, none, some, false, List, [], ◌∷◌, ◌++◌, arith,
  All-map,
}
use paged_alloc.Alloc.{Block, Memory}
use paged_alloc.Tenant.{Tenants}
use paged_alloc.Pool.{PagePool}
use paged_alloc.Pool.Invariant.{IsPool}
use paged_alloc.Source.{PageSource, Contract}
use paged_alloc.Chunk.{from_pool, State, OpenPage, drop_arc}
use paged_alloc.Chunk.Arcs.{count, refs_of_none}
use paged_alloc.Chunk.Invariant.{IsCounted, held}
use paged_alloc.Chunk.Carved.{Span, ids, IsCarved, IsCarved-arcs, IsCarved-retire, page_of}
use paged_alloc.Chunk.Pages.{page_of-drop_arc, drop_arc-current}
use paged_alloc.Chunk.Drop.{drop_arc-IsCounted}
use paged_alloc.Chunk.Dispatch.{retire}

module _ {s : PageSource} (c : Contract s) where
  -- `outs` are the bytes of the builders and chunks that are alive.
  pub record IsChunks (w : State) (free queued : List ℕ) (rest : List Block) (outs : List Span)
      : Type 0 where
    pub counted : IsCounted c w free queued rest (held w.pool.current ++ ids outs)
    pub carved : IsCarved s.page_size w.pool.current w.arcs outs

pub count_of_mem : (i : ℕ) (hs : List ℕ) → Mem i hs → 0 < count i hs
count_of_mem i [] h = absurd (List.not-mem-nil h)
count_of_mem i (j ∷ hs) h =
    Or.elim le_prop (mem-cons.0 h) (λ is. ground arith)
      (λ more. ground (arith, count_of_mem i hs more))

-- The next number refers to nothing yet.
pub next_arc_new :
    {s : PageSource} (c : Contract s) (w : State) (free queued : List ℕ) (rest : List Block)
    (hs : List ℕ)
    → IsCounted c w free queued rest hs
    → (j : ℕ) → Mem j hs
    → w.next_arc ≢ j
next_arc_new c w free queued rest hs k j h same =
    let unused =
      refs_of_none w.next_arc w.arcs
        (All-map (λ a lt e. omega (arith, lt, ap (λ (t : ℕ). t) e)) w.arcs k.fresh) in
    omega (
      arith,
      unused,
      k.counts w.next_arc,
      count_of_mem w.next_arc hs (subst (λ (t : ℕ). Mem t hs) (sym same) h),
    )

-- Dropping a handle leaves the buffers of the other handles.
pub drop_arc-page_of :
    {s : PageSource} (c : Contract s) (w : State) (free queued : List ℕ) (rest : List Block) (i : ℕ)
    (hs : List ℕ)
    → IsCounted c w free queued rest (i ∷ hs)
    → (j : ℕ) → Mem j hs
    → page_of j (drop_arc i w).arcs ≡ page_of j w.arcs
drop_arc-page_of c w free queued rest i hs k j h = page_of-drop_arc i j w (λ same.
    ground (arith, k.counts i, subst (λ (t : ℕ). 0 < count t hs) (sym same) (count_of_mem j hs h)))

-- The state with another open page.
abbrev pub with_current : State → Option OpenPage → State
with_current w current = record w { pool = record w.pool { current = current } }

pub IsCounted-current :
    {s : PageSource} (c : Contract s) (w : State) {free queued : List ℕ} {rest : List Block}
    {hs : List ℕ} (current : Option OpenPage)
    → IsCounted c w free queued rest hs
    → IsCounted c (with_current w current) free queued rest hs
IsCounted-current c w current k = record {
  pool = k.pool;
  counts = k.counts;
  alive = k.alive;
  distinct = k.distinct;
  fresh = k.fresh;
  no_fault = k.no_fault;
}

-- The state that a new `ChunkPool` starts in.
abbrev pub new_state : PagePool → Memory → Tenants → State
new_state pages m tenants = record {
  pool = from_pool pages;
  mem = m;
  tenants = tenants;
  arcs = [];
  next_arc = 0;
  faulted = false;
}

-- A new `ChunkPool` over a page pool of which nothing is in use has handed nothing out, and its
-- invariant holds.
pub from_pool-IsChunks :
    {s : PageSource} (c : Contract s) (pages : PagePool) (m : Memory) (tenants : Tenants)
    (free queued : List ℕ) (rest : List Block)
    → IsPool c pages m free queued [] rest
    → IsChunks c (new_state pages m tenants) free queued rest []
from_pool-IsChunks c pages m tenants free queued rest k = record {
  counted = record {
    pool = k;
    counts = λ i. refl;
    alive = tt;
    distinct = tt;
    fresh = tt;
    no_fault = refl;
  };
  carved = record { open_page = tt; within = tt; separate = tt; below = tt };
}

module _ {s : PageSource} (c : Contract s) (w : State) (free queued : List ℕ) (rest : List Block)
    (outs : List Span) where
  -- A handle drops that is not the pool's own.
  pub drop_arc-IsChunks :
      (i : ℕ)
      → IsCounted c w free queued rest (i ∷ (held w.pool.current ++ ids outs))
      → IsCarved s.page_size w.pool.current w.arcs outs
      → (queued' : List ℕ) × IsChunks c (drop_arc i w) free queued' rest outs
  drop_arc-IsChunks i k carved =
      let (queued', left) = drop_arc-IsCounted c free queued rest w i _ k in
      let same = sym (drop_arc-current i w) in
      (
        queued',
        record {
          counted =
              subst (λ cur. IsCounted c (drop_arc i w) free queued' rest (held cur ++ ids outs))
                same left;
          carved =
              subst (λ cur. IsCarved s.page_size cur (drop_arc i w).arcs outs) same
                (IsCarved-arcs s.page_size w.pool.current
                  (drop_arc-page_of c w free queued rest i _ k) carved);
        },
      )

module _ {s : PageSource} (c : Contract s) (w : State) (free queued : List ℕ) (rest : List Block)
    (outs : List Span) where
  retire_from :
      (current : Option OpenPage)
      → IsChunks c (with_current w current) free queued rest outs
      → (queued' : List ℕ) × IsChunks c (retire (with_current w current)) free queued' rest outs
        × ((retire (with_current w current)).pool.current ≡ none)
  unfolding retire
  retire_from none k = (queued, record { counted = k.counted; carved = k.carved }, refl)
  retire_from (some o) k =
      let (queued', left) =
        drop_arc-IsChunks c (with_current w none) free queued rest outs o.shared
          (IsCounted-current c (with_current w (some o)) none k.counted)
          (IsCarved-retire s.page_size (some o) k.carved) in
      (queued', left, drop_arc-current o.shared (with_current w none))

  -- Closing the open page keeps what it has handed out, and leaves no page open.
  pub retire-IsChunks :
      IsChunks c w free queued rest outs
      → (queued' : List ℕ) × IsChunks c (retire w) free queued' rest outs
        × ((retire w).pool.current ≡ none)
  retire-IsChunks k = retire_from w.pool.current k
