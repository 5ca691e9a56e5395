-- ===== src/Chunk/Lifetime.antt =====
-- src/chunk.rs: sealing a builder, and dropping builders and chunks.
use mathlib.Core.List.{mem-cons_self}
use mathlib.Core.List
use paged_alloc.Base.{
  ℕ, ◌≤◌, ◌≡◌, Option-cases, arith, refl, ap, sym, ◌∙◌, subst, Option, none, some, List, ◌∷◌, ◌++◌,
  ◌==◌, true, inl, inr,
}
use paged_alloc.Alloc.{Block}
use paged_alloc.Source.{PageSource, Contract}
use paged_alloc.World.{returned}
use paged_alloc.Chunk.{
  State, ArcPage, OpenPage, clone_arc, drop_arc, drop_option, clone_option, refund,
}
use paged_alloc.Chunk.Builder.{ChunkBuilder, Chunk, seal, drop_builder, drop_inner, drop_chunk}
use paged_alloc.Chunk.Arcs.{refs_of}
use paged_alloc.Chunk.Invariant.{IsCounted, held}
use paged_alloc.Chunk.Carved.{Span, ids, IsCarved, IsCarved-arcs, page_of}
use paged_alloc.Chunk.Pages.{
  page_of-clone_arc, clone_arc-current, page_of-drop_arc, drop_arc-mem, clone_arc-mem,
}
use paged_alloc.Chunk.Drop.{clone_arc-IsCounted}
use paged_alloc.Chunk.Holds.{IsChunks, count_of_mem, drop_arc-IsChunks}
use paged_alloc.Chunk.Grant.{span_of, IsChunks-stats, count-middle}

-- The chunk that `seal` makes of a builder.
abbrev pub sealed : ChunkBuilder → ℕ → Chunk
sealed b t = record {
  inner = record {
    packed = b.packed;
    tenant = t;
    oversized_bytes = b.oversized_bytes;
    offset = b.offset;
    capacity = b.capacity;
    length = b.len;
  };
  ref_count = 1;
}

IsCarved-tail :
    (page_size : ℕ) {arcs : List ArcPage} {t : Span} {outs : List Span} (current : Option OpenPage)
    → IsCarved page_size current arcs (t ∷ outs)
    → IsCarved page_size current arcs outs
IsCarved-tail page_size current k = record {
  open_page = k.open_page;
  within = k.within.1;
  separate = k.separate.1;
  below = k.below.1;
}

module _ {s : PageSource} (c : Contract s) (rest : List Block) where
  -- The handle of one span drops.
  drop_span :
      (packed : Option ℕ) (offset size : ℕ) (w : State) (free queued : List ℕ) (outs : List Span)
      → IsChunks c w free queued rest (span_of packed offset size ++ outs)
      → (queued' : List ℕ) × IsChunks c (drop_option packed w) free queued' rest outs
  drop_span none offset size w free queued outs k = (queued, k)
  drop_span (some id) offset size w free queued outs k =
      drop_arc-IsChunks c w free queued rest outs id
        (record {
          pool = k.counted.pool;
          counts =
              λ j. k.counted.counts j ∙ sym (count-middle j id (held w.pool.current) (ids outs));
          alive = k.counted.alive;
          distinct = k.counted.distinct;
          fresh = k.counted.fresh;
          no_fault = k.counted.no_fault;
        })
        (IsCarved-tail s.page_size w.pool.current k.carved)

  -- A clone and a drop of one handle leave every span as it was.
  pub reseal :
      (packed : Option ℕ) (offset size : ℕ) (w : State) (free queued : List ℕ) (outs : List Span)
      → IsChunks c w free queued rest (span_of packed offset size ++ outs)
      → (queued' : List ℕ) × IsChunks c
          (drop_option packed (clone_option packed w))
          free
          queued'
          rest
          (span_of packed offset size ++ outs)
  reseal none offset size w free queued outs k = (queued, k)
  reseal (some id) offset size w free queued outs k =
      drop_arc-IsChunks c (clone_arc id w) free queued rest
        (record { id = id; offset = offset; size = size } ∷ outs) id
        (subst
          (λ cur.
            IsCounted c (clone_arc id w) free queued rest (id ∷ (held cur ++ (id ∷ ids outs))))
          same
          (clone_arc-IsCounted c free queued rest w id (held w.pool.current ++ (id ∷ ids outs))
            k.counted
            (count_of_mem id _ (List.mem-append_right (held w.pool.current) mem-cons_self))))
        (subst
          (λ cur.
            IsCarved s.page_size cur (clone_arc id w).arcs
              (record { id = id; offset = offset; size = size } ∷ outs))
          same
          (IsCarved-arcs s.page_size w.pool.current (λ j h. page_of-clone_arc id j w) k.carved))
    where
      same : w.pool.current ≡ (clone_arc id w).pool.current
      same = sym (clone_arc-current id w)

  -- Neither memory nor any buffer changes.
  pub reseal-mem :
      (id offset size : ℕ) (w : State) (free queued : List ℕ) (outs : List Span)
      → IsChunks c w free queued rest (record { id = id; offset = offset; size = size } ∷ outs)
      → ((drop_arc id (clone_arc id w)).mem ≡ w.mem)
        × ((j : ℕ) → page_of j (drop_arc id (clone_arc id w)).arcs ≡ page_of j w.arcs)
  reseal-mem id offset size w free queued outs k =
      let held_one =
        count_of_mem id (held w.pool.current ++ (id ∷ ids outs))
          (List.mem-append_right (held w.pool.current) mem-cons_self) in
      let counted =
        clone_arc-IsCounted c free queued rest w id (held w.pool.current ++ (id ∷ ids outs))
          k.counted held_one in
      let two : 2 ≤ refs_of id (clone_arc id w).arcs =
        ground (arith, counted.counts id, held_one) in
      (
        drop_arc-mem id (clone_arc id w) two ∙ clone_arc-mem id w,
        λ j. page_of-drop_arc id j (clone_arc id w) (λ _. two) ∙ page_of-clone_arc id j w,
      )

  -- Sealing a builder that has its tenant returns the chunk over the same bytes, and the invariant
  -- holds with those bytes for the chunk.
  pub seal-IsChunks :
      (b : ChunkBuilder) (t size : ℕ) (w : State) (free queued : List ℕ) (outs : List Span)
      → b.tenant ≡ some t
      → IsChunks c w free queued rest (span_of b.packed b.offset size ++ outs)
      → (w' : State) × (queued' : List ℕ) × (seal b w ≡ returned (sealed b t) w')
        × IsChunks c w' free queued' rest (span_of b.packed b.offset size ++ outs)
  unfolding seal drop_builder
  seal-IsChunks b t size w free queued outs has k =
      let (queued', left) = reseal b.packed b.offset size w free queued outs k in
      (drop_option b.packed (clone_option b.packed w), queued', rw (has, seal) refl, left)

  -- A builder that is dropped unsealed leaves the others with what they had: the invariant holds
  -- without its bytes.
  pub drop_builder-IsChunks :
      (b : ChunkBuilder) (size : ℕ) (w : State) (free queued : List ℕ) (outs : List Span)
      → IsChunks c w free queued rest (span_of b.packed b.offset size ++ outs)
      → (queued' : List ℕ) × IsChunks c (drop_builder b w) free queued' rest outs
  unfolding drop_builder refund
  drop_builder-IsChunks b size w free queued outs k = elim (Option-cases b.tenant) [
    | inl e ↦ rw (e, drop_builder) (drop_span b.packed b.offset size w free queued outs k)
    | inr (t, e) ↦
        rw (e, drop_builder)
          (drop_span b.packed b.offset size (refund t b.capacity b.oversized_bytes w) free queued
            outs (IsChunks-stats c w _ _ k))
  ]

  -- The last clone of a chunk is gone once dropped, and the invariant holds without its bytes.
  pub drop_chunk-IsChunks :
      (chunk : Chunk) (size : ℕ) (w : State) (free queued : List ℕ) (outs : List Span)
      → IsChunks c w free queued rest (span_of chunk.inner.packed chunk.inner.offset size ++ outs)
      → chunk.ref_count ≡ 1
      → ((drop_chunk chunk w).0 ≡ none)
        × ((queued' : List ℕ) × IsChunks c ((drop_chunk chunk w).1) free queued' rest outs)
  unfolding drop_chunk drop_inner refund
  drop_chunk-IsChunks chunk size w free queued outs k one =
      let hit : (chunk.ref_count == 1) ≡ true = ap (λ (n : ℕ). n == 1) one in
      rw (hit, drop_chunk)
        (
          refl,
          drop_span chunk.inner.packed chunk.inner.offset size
              (refund chunk.inner.tenant chunk.inner.capacity chunk.inner.oversized_bytes w) free
              queued outs (IsChunks-stats c w _ _ k),
        )
