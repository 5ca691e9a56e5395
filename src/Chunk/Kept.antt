-- ===== src/Chunk/Kept.antt =====
-- src/chunk.rs: what the steps of an allocation leave of the buffers that others hold.
use mathlib.Core.List.{Mem, Perm, append_assoc}
use mathlib.Core.List.Perm
use paged_alloc.Base.{
  ℕ, ◌≤◌, ◌<◌, ◌≡◌, ◌≢◌, ap, sym, ◌∙◌, subst, inl, inr, ◌⊎◌, Option-cases, some, List, ◌∷◌, ◌++◌,
  map, ==_cases, arith,
}
use paged_alloc.Memory.Region.{Same, Same-of_outside}
use paged_alloc.Alloc.{Block, Memory, block}
use paged_alloc.Alloc.Sound.{ApartBlocks, apart_of_perm}
use paged_alloc.Alloc.Zeroed.{Allocated}
use paged_alloc.Source.{PageSource, Contract}
use paged_alloc.Pool.{PagePool, push_return, pop_local, drain_return_queue, allocate_raw_page}
use paged_alloc.Pool.Acquire.{raw_of_local, raw_of_queue, raw_of_source}
use paged_alloc.Pool.Ownership.{page}
use paged_alloc.Pool.Invariant.{IsPool}
use paged_alloc.Pool.Links.{write_ptr_within}
use paged_alloc.Chunk.{State, PackedPage, remove_arc, drop_arc, drop_packed}
use paged_alloc.Chunk.Arcs.{refs_of, count, pooled, boxed}
use paged_alloc.Chunk.Invariant.{IsCounted}
use paged_alloc.Chunk.Carved.{extent, page_of}
use paged_alloc.Chunk.Claim.{page_at}
use paged_alloc.Chunk.Holds.{count_of_mem}
use paged_alloc.Chunk.Pages.{find_arc-page, page_of-drop_arc, drop_arc-mem}
use paged_alloc.Chunk.Isolated.{block_of, owned-mem, size_of, addr_of, buffers-Apart}

-- The buffer behind the `Arc` numbered `j` is where it was, with every byte.
abbrev pub Kept : ℕ → ℕ → State → State → Type 0
Kept page_size j w v =
    (pg : PackedPage)
    → page_of j w.arcs ≡ some pg
    → (page_of j v.arcs ≡ some pg) × Same pg.buf (extent page_size pg) w.mem.bytes v.mem.bytes

pub Kept-trans : (n j : ℕ) (w u v : State) → Kept n j w u → Kept n j u v → Kept n j w v
Kept-trans n j w u v a b pg is =
    let (there, same) = a pg is in
    let (still, again) = b pg there in (still, λ q lo hi. again q lo hi ∙ same q lo hi)

-- Memory is as it was.
pub mem-Kept :
    (n j : ℕ) (w v : State) → page_of j v.arcs ≡ page_of j w.arcs → v.mem ≡ w.mem → Kept n j w v
mem-Kept n j w v arcs mem pg is = (arcs ∙ is, λ q lo hi. ap (λ (m : Memory). m.bytes q) mem)

module _ {s : PageSource} (c : Contract s) (free queued : List ℕ) (rest : List Block) (w : State)
    (hs : List ℕ) (k : IsCounted c w free queued rest hs) where
  -- A buffer behind an `Arc` is a live block.
  live-mem :
      (j : ℕ) (pg : PackedPage) → page_of j w.arcs ≡ some pg → Mem (block_of c.layout pg) w.mem.live
  live-mem j pg is = (Perm.mem_iff k.pool.owns.blocks).1 (
      subst (λ ps. Mem (block_of c.layout pg) (map (page c.layout) ps ++ (boxed w.arcs ++ rest)))
        (append_assoc free queued (pooled w.arcs))
        (owned-mem c.layout (free ++ queued) rest j w.arcs pg is))

  -- A new block is apart from it.
  pub Allocated-Same :
      (b : Block) (m : Memory) (j : ℕ) (pg : PackedPage)
      → Allocated b w.mem m
      → page_of j w.arcs ≡ some pg
      → Same pg.buf (extent s.page_size pg) w.mem.bytes m.bytes
  Allocated-Same b m j pg new is =
      let apart : ApartBlocks b (block_of c.layout pg) =
        apart_of_perm new.sound (subst (λ bs. Perm m.live bs) new.live (Perm.refl m.live))
          (live-mem j pg is) in
      Same-of_outside b.addr b.size pg.buf (extent s.page_size pg) new.same
        (omega (arith, apart, size_of c pg, addr_of c.layout pg))

-- `allocate_raw_page` writes to no page but one that the source has just allocated.
pub allocate_raw_page-mem :
    {s : PageSource} (c : Contract s) (pool pool' : PagePool) (m n : Memory) (p : ℕ)
    (free queued used : List ℕ) (rest : List Block)
    → IsPool c pool m free queued used rest
    → allocate_raw_page pool m ≡ some (p, pool', n)
    → (n ≡ m) ⊎ Allocated (block p c.layout) m n
allocate_raw_page-mem c pool pool' m n p free queued used rest k e =
    elim (Option-cases (pop_local pool m)) [
      | inl f ↦ elim (Option-cases (drain_return_queue pool m)) [
        | inl g ↦
            let (did, _) = raw_of_source pool m p pool' n f g e in
            inr (
              (c.allocates m n p k.owns.sound
                (ap (λ (t : PageSource). t.allocate m) (sym k.source) ∙ did)).1)
        | inr ((q, pool''), g) ↦ let is = raw_of_queue pool m q pool'' f g in inl cc
      ]
      | inr ((q, pool''), f) ↦ let is = raw_of_local pool m q pool'' f in inl cc
    ]

module _ {s : PageSource} (c : Contract s) (free queued : List ℕ) (rest : List Block) (w : State)
    (hs : List ℕ) where
  -- A handle on a page of the pool drops, while another buffer, or the same, is held elsewhere.
  pub drop_arc-Kept :
      (i p j : ℕ)
      → IsCounted c w free queued rest (i ∷ hs)
      → page_of i w.arcs ≡ some (page_at p)
      → Mem j hs
      → Kept s.page_size j w (drop_arc i w)
  unfolding drop_arc drop_packed push_return
  drop_arc-Kept i p j k is held pg there =
      let twice : i ≡ j → 2 ≤ refs_of i w.arcs = λ same. ground (
        arith,
        k.counts i,
        subst (λ (t : ℕ). 0 < count t hs) (sym same) (count_of_mem j hs held),
      ) in
      let (a, found, at, refs) = find_arc-page i w.arcs (page_at p) is in
      elim (==_cases a.refs 1) [
        | inl (last, one) ↦
            let ne : i ≢ j = λ same. omega (arith, twice same, refs) in
            (
              page_of-drop_arc i j w twice ∙ there,
              rw (found, last, drop_arc)
                  (subst
                    (λ x.
                      Same pg.buf (extent s.page_size pg) w.mem.bytes
                        (drop_packed x (record w { arcs = remove_arc i w.arcs })).mem.bytes)
                    (sym at)
                    (Same-of_outside p s.page_size pg.buf (extent s.page_size pg)
                      (write_ptr_within w.mem.bytes p w.pool.pages.shared.return_head
                        k.pool.holds_pointer)
                      (buffers-Apart c w free queued rest (i ∷ hs) k i j (page_at p) pg ne is
                        there))),
            )
        | inr (more, many) ↦
            mem-Kept s.page_size j w (drop_arc i w) (page_of-drop_arc i j w twice)
              (drop_arc-mem i w (ground (arith, k.counts i, refs))) pg there
      ]
