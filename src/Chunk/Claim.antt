-- ===== src/Chunk/Claim.antt =====
-- src/chunk.rs: a claim on the open page, for a range past its cursor.
use mathlib.Core.List.{Mem, mem-cons_self, mem-cons, mem-append_left}
use mathlib.Core.List
use paged_alloc.Base.{
  ℕ, ◌+◌, ◌%◌, ◌≤◌, ◌≡◌, sym, subst, inl, inr, some, List, [], ◌∷◌, ◌++◌, arith, ==_cases,
}
use paged_alloc.Alloc.{Block}
use paged_alloc.Source.{PageSource, Contract}
use paged_alloc.Pool.Ownership.{page-IsPlaced}
use paged_alloc.Chunk.{State, OpenPage, PackedPage, ArcPage, clone_arc, to_pool}
use paged_alloc.Chunk.Arcs.{pooled, own_page}
use paged_alloc.Chunk.Invariant.{IsCounted, held}
use paged_alloc.Chunk.Carved.{Span, ids, IsCarved, IsCarved-arcs, IsCarved-advance, page_of}
use paged_alloc.Chunk.Pages.{page_of-clone_arc, clone_arc-current}
use paged_alloc.Chunk.Drop.{clone_arc-IsCounted}
use paged_alloc.Chunk.Fit.{IsOpen}
use paged_alloc.Chunk.Holds.{IsChunks, with_current, IsCounted-current}
use paged_alloc.Chunk.Dispatch.{advance}

abbrev pub page_at : ℕ → PackedPage
page_at p = record { buf = p; release = to_pool }

pooled-mem :
    (i p : ℕ) (arcs : List ArcPage) → page_of i arcs ≡ some (page_at p) → Mem p (pooled arcs)
pooled-mem i p [] e = cc
pooled-mem i p (a ∷ arcs) e = elim (==_cases a.id i) [
  | inl (hit, _) ↦
      let at : a.page ≡ page_at p = ground arith in
      subst (λ pg. Mem p (own_page pg ++ pooled arcs)) (sym at) mem-cons_self
  | inr (miss, _) ↦ List.mem-append_right (own_page a.page) (pooled-mem i p arcs (ground arith))
]

module _ {s : PageSource} (c : Contract s) (w : State) (free queued : List ℕ)
    (rest : List Block) where
  -- A page of the pool lies in memory, aligned for a pointer.
  pub page-IsOpen :
      (hs : List ℕ) (i p write_offset : ℕ)
      → IsCounted c w free queued rest hs
      → page_of i w.arcs ≡ some (page_at p)
      → write_offset ≤ s.page_size
      → IsOpen s.page_size p write_offset × (p % 8 ≡ 0)
  page-IsOpen hs i p write_offset k is le =
      let among =
        List.mem-append_right free (List.mem-append_right queued (pooled-mem i p w.arcs is)) in
      let placed = page-IsPlaced p k.pool.owns among in
      let even = k.pool.owns.aligned p among in
      (
        record {
          not_null = omega (arith, placed.not_null, even);
          in_space = omega (arith, placed.in_space, c.size);
          within = le;
        },
        even,
      )

  -- The span of the next claim on the open page.
  abbrev pub claim : OpenPage → ℕ → ℕ → Span
  claim o offset size = record { id = o.shared; offset = offset; size = size }

  pub advance-IsChunks :
      (o : OpenPage) (offset size : ℕ) (outs : List Span)
      → o.write_offset ≤ offset
      → offset + size ≤ s.page_size
      → IsChunks c (with_current w (some o)) free queued rest outs
      → IsChunks c
          (advance o.shared (offset + size) w)
          free
          queued
          rest
          (claim o offset size ∷ outs)
  unfolding advance
  advance-IsChunks o offset size outs past inside k = record {
    counted =
        subst
          (λ cur.
            IsCounted c (clone_arc o.shared v) free queued rest
              (held cur ++ ids (claim o offset size ∷ outs)))
          same
          (clone_arc-IsCounted c free queued rest v o.shared (o.shared ∷ ids outs)
            (IsCounted-current c (with_current w (some o)) (some o') k.counted) (ground arith));
    carved =
        subst
          (λ cur. IsCarved s.page_size cur (clone_arc o.shared v).arcs (claim o offset size ∷ outs))
          same
          (IsCarved-arcs s.page_size (some o') (λ j h. page_of-clone_arc o.shared j v)
            (IsCarved-advance s.page_size o offset size past inside k.carved));
  }
    where
      o' : OpenPage
      o' = record { shared = o.shared; write_offset = offset + size }

      v : State
      v = with_current w (some o')

      same : some o' ≡ (clone_arc o.shared v).pool.current
      same = sym (clone_arc-current o.shared v)
