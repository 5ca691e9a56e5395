-- ===== src/Chunk/Invariant.antt =====
-- The invariant of `ChunkPool` (src/chunk.rs): every `Arc<PackedPage>` counts the handles that refer
-- to it, and owns its buffer.
use paged_alloc.Base.{ℕ, ◌<◌, ◌≡◌, List, [], ◌∷◌, ◌++◌, All, false, Option, none, some}
use paged_alloc.Alloc.{Block}
use paged_alloc.Source.{PageSource, Contract}
use paged_alloc.Pool.Invariant.{IsPool}
use paged_alloc.Chunk.{State, OpenPage}
use paged_alloc.Chunk.Arcs.{count, refs_of, pooled, boxed, Distinct}

-- `hs` lists the `Arc`s by the handles on them; `free` and `queued` are the pages at hand and `rest`
-- the blocks that others hold.
module _ {s : PageSource} (c : Contract s) where
  pub record IsCounted (w : State) (free queued : List ℕ) (rest : List Block) (hs : List ℕ)
      : Type 0 where
    pub pool : IsPool c w.pool.pages w.mem free queued (pooled w.arcs) (boxed w.arcs ++ rest)
    pub counts : (i : ℕ) → refs_of i w.arcs ≡ count i hs
    pub alive : All (λ a. 0 < a.refs) w.arcs
    pub distinct : Distinct w.arcs
    pub fresh : All (λ a. a.id < w.next_arc) w.arcs
    pub no_fault : w.faulted ≡ false

-- The handle that the pool itself keeps on its open page.
abbrev pub held : Option OpenPage → List ℕ
held none = []
held (some open_page) = open_page.shared ∷ []
