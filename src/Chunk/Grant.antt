-- ===== src/Chunk/Grant.antt =====
-- src/chunk.rs: what `allocate_aligned` hands out on each of its paths.
use mathlib.Core.List.{Mem}
use paged_alloc.Base.{
  ℕ, ◌+◌, ◌*◌, ◌%◌, ◌^◌, ◌<◌, ◌≤◌, ◌≡◌, ◌≢◌, refl, sym, ◌∙◌, subst, inl, inr, ◌⊎◌, Option, none,
  some, List, [], ◌∷◌, ◌++◌, arith, ==_refl, ne→==,
}
use paged_alloc.Alloc.{Block, Memory}
use paged_alloc.Source.{PageSource, Contract}
use paged_alloc.Tenant.{Tenants}
use paged_alloc.Pool.{PagePool}
use paged_alloc.World.{returned}
use paged_alloc.Chunk.{State, PackedPage, ArcPage, ChunkPoolStats, charge}
use paged_alloc.Chunk.Builder.{ChunkBuilder}
use paged_alloc.Chunk.Arcs.{count}
use paged_alloc.Chunk.Invariant.{IsCounted, held}
use paged_alloc.Chunk.Carved.{Span, ids, IsCarved-arcs, IsCarved-cons, page_of, extent}
use paged_alloc.Chunk.Acquire.{take_page_cases, with_arc}
use paged_alloc.Chunk.Fit.{IsPacked, small_power}
use paged_alloc.Chunk.Holds.{IsChunks, next_arc_new}
use paged_alloc.Chunk.Failure.{Refused, Refused-and_then}
use paged_alloc.Chunk.Packed.{find_room-Claimed}
use paged_alloc.Chunk.Claim.{page_at, page-IsOpen}
use paged_alloc.Chunk.Dispatch.{
  count_packed, count_dedicated, new_builder, allocate_zero, allocate_packed, allocate_dedicated,
}

-- The bytes of a builder, if it has a buffer.
abbrev pub span_of : Option ℕ → ℕ → ℕ → List Span
span_of none offset size = []
span_of (some id) offset size = record { id = id; offset = offset; size = size } ∷ []

-- Counters play no part in who owns what.
pub IsChunks-stats :
    {s : PageSource} (c : Contract s) (w : State) {free queued : List ℕ} {rest : List Block}
    {outs : List Span} (stats : ChunkPoolStats) (tenants : Tenants)
    → IsChunks c w free queued rest outs
    → IsChunks c
        (record w { pool = record w.pool { stats = stats }; tenants = tenants })
        free
        queued
        rest
        outs
IsChunks-stats c w stats tenants k = record {
  counted = record {
    pool = k.counted.pool;
    counts = k.counted.counts;
    alive = k.counted.alive;
    distinct = k.counted.distinct;
    fresh = k.counted.fresh;
    no_fault = k.counted.no_fault;
  };
  carved = k.carved;
}

pub count-middle : (j i : ℕ) (xs ys : List ℕ) → count j (i ∷ (xs ++ ys)) ≡ count j (xs ++ (i ∷ ys))
count-middle j i [] ys = refl
count-middle j i (x ∷ xs) ys = omega (arith, count-middle j i xs ys)

module _ {s : PageSource} (c : Contract s) (w : State) (free queued : List ℕ) (rest : List Block)
    (outs : List Span) where
  -- A new `Arc` whose only handle a builder has.
  pub alone-IsChunks :
      (page : PackedPage) (pages : PagePool) (m : Memory) (free' queued' : List ℕ) (size : ℕ)
      → IsChunks c w free queued rest outs
      → IsCounted c
          (with_arc w page pages m)
          free'
          queued'
          rest
          (w.next_arc ∷ (held w.pool.current ++ ids outs))
      → size ≤ extent s.page_size page
      → IsChunks c
          (with_arc w page pages m)
          free'
          queued'
          rest
          (record { id = w.next_arc; offset = 0; size = size } ∷ outs)
  alone-IsChunks page pages m free' queued' size k left fits = record {
    counted = record {
      pool = left.pool;
      counts = λ j. left.counts j ∙ count-middle j w.next_arc (held w.pool.current) (ids outs);
      alive = left.alive;
      distinct = left.distinct;
      fresh = left.fresh;
      no_fault = left.no_fault;
    };
    carved =
        IsCarved-cons s.page_size w.pool.current _ (page, rw (==_refl w.next_arc) refl, omega arith)
          new
          (IsCarved-arcs s.page_size w.pool.current (λ j h. rw (ne→== w.next_arc j (new j h)) refl)
            k.carved);
  }
    where
      new : (j : ℕ) → Mem j (held w.pool.current ++ ids outs) → w.next_arc ≢ j
      new = next_arc_new c w free queued rest _ k.counted

-- What a builder that has just been handed out is.
module _ {s : PageSource} (c : Contract s) (t size k : ℕ) (rest : List Block)
    (outs : List Span) where
  pub record Granted (b : ChunkBuilder) (w' : State) : Type 0 where
    pub free : List ℕ
    pub queued : List ℕ
    pub chunks : IsChunks c w' free queued rest (span_of b.packed b.offset size ++ outs)
    pub tenant : b.tenant ≡ some t
    pub capacity : b.capacity ≡ size
    pub empty : b.len ≡ 0
    pub buffer : 0 < size → (id : ℕ) × (b.packed ≡ some id)
    pub aligned :
        (id : ℕ)
        → b.packed ≡ some id
        → (page : PackedPage) × (q : ℕ) × (page_of id w'.arcs ≡ some page)
          × (page.buf + b.offset ≡ q * 2 ^ k)

-- A builder refers to one buffer.
pub at_only :
    (k i offset : ℕ) (page : PackedPage) (arcs : List ArcPage)
    → page_of i arcs ≡ some page
    → (q : ℕ) → page.buf + offset ≡ q * 2 ^ k
    → (j : ℕ) → some i ≡ some j
    → (page' : PackedPage) × (q' : ℕ) × (page_of j arcs ≡ some page')
      × (page'.buf + offset ≡ q' * 2 ^ k)
at_only k i offset page arcs is q e j same =
    let here : i ≡ j = cc in (page, q, subst (λ (n : ℕ). page_of n arcs ≡ some page) here is, e)

module _ {s : PageSource} (c : Contract s) (t size k : ℕ) (rest : List Block) (outs : List Span)
    (w : State) (free queued : List ℕ) (chunks : IsChunks c w free queued rest outs) where
  pub zero-Granted :
      size ≡ 0
      → (b : ChunkBuilder) × (w' : State) × (allocate_zero t w ≡ returned b w')
        × Granted c t size k rest outs b w'
  unfolding allocate_zero charge
  zero-Granted is = (
    _,
    _,
    refl,
    record {
      free = free;
      queued = queued;
      chunks = IsChunks-stats c w _ _ chunks;
      tenant = refl;
      capacity = omega arith;
      empty = refl;
      buffer = λ pos. absurd (omega arith);
      aligned = λ id e. cc;
    },
  )

  pub packed-Granted :
      k < 64
      → s.page_size < 2 ^ 32
      → IsPacked s.page_size size (2 ^ k)
      → Refused c rest outs (allocate_packed t size (2 ^ k) w)
        ⊎ ((b : ChunkBuilder) × (w' : State) × (allocate_packed t size (2 ^ k) w ≡ returned b w')
            × Granted c t size k rest outs b w')
  unfolding allocate_packed charge
  packed-Granted lt small packed =
      elim (find_room-Claimed c size k rest outs w free queued lt packed chunks) [
        | inl failed ↦ inl (
            Refused-and_then c rest outs
              (λ r v.
                returned (new_builder (some r.0) t 0 r.1 size) (count_packed (charge t size v)))
              failed)
        | inr (w', id, offset, did, claimed) ↦
            let low : offset % 2 ^ 32 ≡ offset = omega (arith, claimed.inside) in
            inr (
              new_builder (some id) t 0 offset size,
              count_packed (charge t size w'),
              rw (did, allocate_packed) refl,
              record {
                free = claimed.free;
                queued = claimed.queued;
                chunks = IsChunks-stats c w' _ _ (
                    subst
                      (λ o.
                        IsChunks c w' claimed.free claimed.queued rest
                          (record { id = id; offset = o; size = size } ∷ outs))
                      (sym low) claimed.chunks);
                tenant = refl;
                capacity = omega arith;
                empty = refl;
                buffer = λ pos. (id, refl);
                aligned = λ j e.
                    at_only k id _ (page_at claimed.buf) w'.arcs claimed.page claimed.multiple
                      (omega (arith, claimed.aligned)) j e;
              },
            )
      ]

  pub dedicated-Granted :
      s.page_size < 2 ^ 32
      → size ≤ s.page_size
      → 2 ^ k ≤ 8
      → Refused c rest outs (allocate_dedicated t size w)
        ⊎ ((b : ChunkBuilder) × (w' : State) × (allocate_dedicated t size w ≡ returned b w')
            × Granted c t size k rest outs b w')
  unfolding allocate_dedicated charge
  dedicated-Granted small fits align =
      elim (take_page_cases c free queued rest w _ chunks.counted) [
        | inl (e, f, source, failed) ↦ inl (
            Refused-and_then c rest outs
              (λ id v.
                returned (new_builder (some id) t 0 0 size) (count_dedicated (charge t size v)))
              (record {
                before = w;
                chunks =
                    subst (λ fs. IsChunks c w fs [] rest outs) e
                      (subst (λ qs. IsChunks c w free qs rest outs) f chunks);
                source = source;
                result = failed;
              }))
        | inr (p, pages, m, took, left) ↦
            let here : page_of w.next_arc (with_arc w (page_at p) pages m).arcs ≡ some (page_at p) =
              rw (==_refl w.next_arc) refl in
            let now =
              alone-IsChunks c w free queued rest outs (page_at p) pages m _ _ size chunks left
                fits in
            let (_, even) =
              page-IsOpen c (with_arc w (page_at p) pages m) _ _ rest _ w.next_arc p 0 left here
                (omega arith) in
            let (q, multiple) = small_power k p align even in
            inr (
              new_builder (some w.next_arc) t 0 0 size,
              count_dedicated (charge t size (with_arc w (page_at p) pages m)),
              rw (took, allocate_dedicated) refl,
              record {
                free = _;
                queued = _;
                chunks = IsChunks-stats c (with_arc w (page_at p) pages m) _ _ now;
                tenant = refl;
                capacity = omega arith;
                empty = refl;
                buffer = λ pos. (w.next_arc, refl);
                aligned = λ j e.
                    at_only k w.next_arc 0 (page_at p) (with_arc w (page_at p) pages m).arcs here q
                      (omega arith) j e;
              },
            )
      ]
