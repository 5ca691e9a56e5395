-- ===== src/Chunk/Teardown.antt =====
-- The end of a `ChunkPool` (src/chunk.rs): its fields are dropped in their order, first the page pool,
-- then the open page, and the shared part of the page pool (src/pool.rs) with the last handle on it.
use mathlib.Core.List.{Perm, mem-append_left, append-nil}
use mathlib.Core.List.Perm
use mathlib.Core.List
use paged_alloc.Base.{
  ℕ, suc, ◌+◌, ◌≤◌, ◌<◌, ◌≡◌, refl, sym, ap, ◌∙◌, subst, inl, inr, Option, none, some, List, [],
  ◌∷◌, ◌++◌, All, false, ◌==◌, ==_refl, Option-cases, if◌then◌else◌, arith, length,
}
use paged_alloc.Memory.{ptr_size}
use paged_alloc.Alloc.{Block, Memory}
use paged_alloc.Source.{PageSource, Contract}
use paged_alloc.Pool.{PagePool, drop_pool, drop_shared, push_return, ◌>>=◌}
use paged_alloc.Pool.Ownership.{Owns, Owns-perm, Owns-write, IsSound-write}
use paged_alloc.Pool.Chain.{Chain}
use paged_alloc.Pool.Links.{Chain-link}
use paged_alloc.Pool.Shutdown.{drop_pool-Owns, drop_shared-Owns}
use paged_alloc.Chunk.{
  State, ArcPage, PackedPage, OpenPage, to_pool, drop_option, drop_arc, drop_packed, find_arc,
  remove_arc,
}
use paged_alloc.Chunk.Arcs.{count, refs_of, pooled, boxed, Distinct}
use paged_alloc.Chunk.Invariant.{held}
use paged_alloc.Chunk.Holds.{IsChunks}
use paged_alloc.Chunk.Carved.{Opened, page_of}

abbrev pub open_arc : Option OpenPage → Option ℕ
open_arc none = none
open_arc (some o) = some o.shared

abbrev pub with_pages : State → PagePool → Memory → State
with_pages w pages m = record w { pool = record w.pool { pages = pages }; mem = m }

-- `others` are the handles on the shared part that clients keep (`ChunkPool::shared`). Each buffer
-- that goes back to the pool has one too.
unfoldable pub drop_last_shared : (fuel others : ℕ) → State → Option State
drop_last_shared fuel others w =
    let done = (do
      (shared, m) ← drop_shared fuel w.pool.pages.shared w.mem
      some (with_pages w (record w.pool.pages { shared = shared }) m)) in
    if length (pooled w.arcs) + others == 0 then done else some w

unfoldable pub drop_chunk_pool : (fuel others : ℕ) → State → Option State
drop_chunk_pool fuel others w = do
  (pages, m) ← drop_pool fuel w.pool.pages w.mem
  drop_last_shared fuel others (
      drop_option (open_arc w.pool.current)
        (record w { pool = record w.pool { pages = pages; current = none }; mem = m }))

no_arcs :
    (arcs : List ArcPage) → All (λ a. 0 < a.refs) arcs → ((i : ℕ) → refs_of i arcs ≡ 0) → arcs ≡ []
no_arcs [] alive unused = refl
no_arcs (a ∷ arcs) alive unused = absurd (ground (arith, unused a.id))

one_arc :
    (j : ℕ) (arcs : List ArcPage)
    → All (λ a. 0 < a.refs) arcs
    → Distinct arcs
    → ((i : ℕ) → refs_of i arcs ≡ count i (j ∷ []))
    → (page : PackedPage) × (arcs ≡ record { id = j; refs = 1; page = page } ∷ [])
one_arc j [] alive distinct counts = absurd (ground (arith, counts j))
one_arc j (a ∷ []) alive distinct counts =
    let id : a.id ≡ j = ground (arith, counts a.id) in
    let refs : a.refs ≡ 1 = ground (arith, counts a.id) in (a.page, rw (id, refs) refl)
one_arc j (a ∷ b ∷ arcs) alive distinct counts = absurd (ground (arith, counts a.id, counts b.id))

abbrev lone : ℕ → ℕ → List ArcPage
lone j p = record { id = j; refs = 1; page = record { buf = p; release = to_pool } } ∷ []

abbrev after_lone : State → ℕ → State
after_lone v p =
    let (shared, m) = push_return v.pool.pages.shared v.mem p in
    record (with_pages v (record v.pool.pages { shared = shared }) m) { arcs = [] }

lone_dropped : (v : State) (j p : ℕ) → drop_arc j (record v { arcs = lone j p }) ≡ after_lone v p
unfolding drop_arc find_arc remove_arc drop_packed
lone_dropped v j p = ground arith

drop_lone : (v : State) (j p : ℕ) → v.arcs ≡ lone j p → drop_arc j v ≡ after_lone v p
drop_lone v j p e =
    subst (λ arcs. drop_arc j (record v { arcs = arcs }) ≡ after_lone v p) (sym e)
      (lone_dropped v j p)

lone_page :
    (j p : ℕ) (page : PackedPage)
    → page_of j (record { id = j; refs = 1; page = page } ∷ [])
      ≡ some (record { buf = p; release = to_pool })
    → page ≡ record { buf = p; release = to_pool }
lone_page j p page e =
    let found : page_of j (record { id = j; refs = 1; page = page } ∷ []) ≡ some page =
      rw (==_refl j) refl in
    cc

module _ {s : PageSource} (c : Contract s) (fuel : ℕ) (v : State) (rest : List Block) where
  -- With the last handle on the shared part all that was on the queue is freed.
  last_shared_frees :
      (queued : List ℕ)
      → pooled v.arcs ≡ []
      → v.pool.pages.shared.source ≡ s
      → Owns c.layout v.mem (queued ++ []) rest
      → Chain v.mem.bytes v.pool.pages.shared.return_head queued
      → length queued < fuel
      → (u : State) × (drop_last_shared fuel 0 v ≡ some u)
        × Perm u.mem.live rest
        × (u.faulted ≡ v.faulted)
  unfolding drop_last_shared
  last_shared_frees queued no_pages src owned chain enough =
      let (m, did, left) =
        drop_shared-Owns c fuel v.pool.pages.shared v.mem queued [] rest src owned chain enough in
      (
        with_pages v
            (record v.pool.pages { shared = record v.pool.pages.shared { return_head = 0 } }) m,
        rw (no_pages, did) refl,
        left.blocks,
        refl,
      )

module _ {s : PageSource} (c : Contract s) (fuel : ℕ) (v : State) (rest : List Block) where
  -- The open page goes to the return queue, and is freed with it.
  lone_frees :
      (queued : List ℕ) (j p : ℕ)
      → v.arcs ≡ lone j p
      → v.pool.pages.shared.source ≡ s
      → ptr_size ≤ s.page_size
      → Owns c.layout v.mem (queued ++ (p ∷ [])) rest
      → Chain v.mem.bytes v.pool.pages.shared.return_head queued
      → suc (length queued) < fuel
      → (u : State) × (drop_last_shared fuel 0 (drop_arc j v) ≡ some u)
        × Perm u.mem.live rest
        × (u.faulted ≡ v.faulted)
  unfolding push_return
  lone_frees queued j p e src fits owned chain enough = rw (drop_lone v j p e) (
      last_shared_frees c fuel (after_lone v p) rest (p ∷ queued) refl src
        (Owns-write (IsSound-write refl first.sound) refl
          (subst (λ qs. Owns c.layout v.mem (p ∷ qs) rest) (sym (append-nil queued)) first))
        (Chain-link v.mem.bytes p v.pool.pages.shared.return_head queued (omega (arith, c.size))
          first (λ q h. h) chain)
        enough)
    where
      first : Owns c.layout v.mem (p ∷ queued) rest
      first = Owns-perm (List.perm_append_singleton p queued) owned

-- The state between the end of the page pool and that of the open page.
abbrev emptied : State → Memory → State
emptied w m = record w {
  pool = record w.pool { pages = record w.pool.pages { local_head = 0 }; current = none };
  mem = m;
}

module _ {s : PageSource} (c : Contract s) (fuel : ℕ) (w : State) (free queued : List ℕ)
    (rest : List Block) (m : Memory) where
  -- What is left of the pool, without and with an open page.
  unopened_frees :
      IsChunks c w free queued rest []
      → w.pool.current ≡ none
      → Owns c.layout m (queued ++ pooled w.arcs) (boxed w.arcs ++ rest)
      → Chain m.bytes w.pool.pages.shared.return_head queued
      → length queued < fuel
      → (v : State) × (drop_last_shared fuel 0 (emptied w m) ≡ some v)
        × Perm v.mem.live rest
        × (v.faulted ≡ w.faulted)
  unopened_frees k e owned chain enough =
      let empty : w.arcs ≡ [] =
        no_arcs w.arcs k.counted.alive
          (λ i. k.counted.counts i ∙ ap (λ cur. count i (held cur ++ [])) e) in
      last_shared_frees c fuel (emptied w m) rest queued (ap pooled empty) k.counted.pool.source
        (subst (λ arcs. Owns c.layout m (queued ++ pooled arcs) (boxed arcs ++ rest)) empty owned)
        chain enough

  opened_frees :
      (o : OpenPage)
      → IsChunks c w free queued rest []
      → w.pool.current ≡ some o
      → Owns c.layout m (queued ++ pooled w.arcs) (boxed w.arcs ++ rest)
      → Chain m.bytes w.pool.pages.shared.return_head queued
      → suc (length queued) < fuel
      → (v : State) × (drop_last_shared fuel 0 (drop_arc o.shared (emptied w m)) ≡ some v)
        × Perm v.mem.live rest
        × (v.faulted ≡ w.faulted)
  opened_frees o k e owned chain enough =
      let (page, only) =
        one_arc o.shared w.arcs k.counted.alive k.counted.distinct
          (λ i. k.counted.counts i ∙ ap (λ cur. count i (held cur ++ [])) e) in
      let (p, opened, _) = subst (λ cur. Opened s.page_size cur w.arcs) e k.carved.open_page in
      let is : w.arcs ≡ lone o.shared p =
        only
        ∙ ap (λ t. record { id = o.shared; refs = 1; page = t } ∷ [])
            (lone_page o.shared p page (
              subst (λ arcs. page_of o.shared arcs ≡ some (record { buf = p; release = to_pool }))
                only opened)) in
      lone_frees c fuel (emptied w m) rest queued o.shared p is k.counted.pool.source
        k.counted.pool.holds_pointer
        (subst (λ arcs. Owns c.layout m (queued ++ pooled arcs) (boxed arcs ++ rest)) is owned)
        chain enough

-- With no builder and no chunk alive, no other handle on the shared part of the page pool, and fuel
-- for the local list and for the return queue with one page more, the end of a `ChunkPool` frees
-- every page, the open one included: what is live after it are the blocks that others hold, and
-- nothing has been released that was not live.
pub drop_chunk_pool-Freed :
    {s : PageSource} (c : Contract s) (fuel : ℕ) (w : State) (free queued : List ℕ)
    (rest : List Block)
    → IsChunks c w free queued rest []
    → length free < fuel
    → suc (length queued) < fuel
    → (v : State) × (drop_chunk_pool fuel 0 w ≡ some v) × Perm v.mem.live rest × (v.faulted ≡ false)
unfolding drop_chunk_pool
drop_chunk_pool-Freed c fuel w free queued rest k enough_free enough =
    let (m, did, owned, chain) =
      drop_pool-Owns c fuel w.pool.pages w.mem free queued (pooled w.arcs) (boxed w.arcs ++ rest)
        k.counted.pool enough_free in
    elim (Option-cases w.pool.current) [
      | inl e ↦
          let (v, end, freed, fault) =
            unopened_frees c fuel w free queued rest m k e owned chain (omega arith) in
          (v, rw (did, e) end, freed, fault ∙ k.counted.no_fault)
      | inr (o, e) ↦
          let (v, end, freed, fault) =
            opened_frees c fuel w free queued rest m o k e owned chain enough in
          (v, rw (did, e) end, freed, fault ∙ k.counted.no_fault)
    ]
