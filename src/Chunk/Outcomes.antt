-- ===== src/Chunk/Outcomes.antt =====
-- src/chunk.rs: how `ChunkPool::alloc_with_len` can end once it has its builder.
use paged_alloc.Base.{
  sym, All, ℕ, ◌<◌, ◌≤◌, ◌≡◌, ◌^◌, refl, ap, ◌∙◌, subst, inl, inr, ◌⊎◌, Option, none, some, List,
  ◌++◌, arith, length, take,
}
use paged_alloc.Alloc.{Layout, Block, Memory}
use paged_alloc.Source.{PageSource, Contract}
use paged_alloc.World.{returned, panicked, and_then, unwinding, ◌>>=◌}
use paged_alloc.Chunk.{State, clone_option, refund}
use paged_alloc.Chunk.Builder.{ChunkBuilder, Chunk, fill, set_len, seal, as_slice, drop_builder}
use paged_alloc.Chunk.Books.{
  SameBooks, SameBooks-trans, drop_option-SameBooks, clone_option-SameBooks,
}
use paged_alloc.Chunk.Carved.{Span}
use paged_alloc.Chunk.Holds.{IsChunks}
use paged_alloc.Chunk.Grant.{Granted, span_of}
use paged_alloc.Chunk.Lifetime.{sealed, reseal, drop_builder-IsChunks}
use paged_alloc.Chunk.Isolated.{Untouched}
use paged_alloc.Chunk.Beside.{resealed-mem}
use paged_alloc.Chunk.Closure.{
  stored-Untouched, found, stored, after, fill_lem, stored-SameBooks, live_buffer, stored-IsChunks,
  resealed, slice_lem,
}
use paged_alloc.Chunk.Finish.{finish, finish_fits, finish_over, drop_builder-SameBooks}
use paged_alloc.Chunk.Allocate.{allocate, alloc_with_len}

module _ {s : PageSource} (c : Contract s) (place : Layout → Memory → ℕ) (t n : ℕ)
    (init : List ℕ → Option (List ℕ × ℕ)) (rest : List Block) (outs : List Span) (w : State) where
  -- The builder was handed out, and the closure panicked or named a length that it does not have: the
  -- bytes have been given back and the charges taken back.
  pub record Undone (w' : State) : Type 0 where
    pub b : ChunkBuilder
    pub w1 : State
    pub free : List ℕ
    pub queued : List ℕ
    pub took : allocate place t n w ≡ returned b w1
    pub why :
        (init (found b.packed b.offset n w1) ≡ none)
        ⊎ ((bs : List ℕ) × (len : ℕ) × (init (found b.packed b.offset n w1) ≡ some (bs, len))
            × (n < len))
    pub result : alloc_with_len place t n init w ≡ panicked w'
    pub chunks : IsChunks c w' free queued rest outs
    pub books : SameBooks (refund t n b.oversized_bytes w1) w'

  -- The chunk has what the closure left there, up to the length that it named.
  pub record Filled (chunk : Chunk) (w' : State) : Type 0 where
    pub b : ChunkBuilder
    pub w1 : State
    pub free : List ℕ
    pub queued : List ℕ
    pub bs : List ℕ
    pub len : ℕ
    pub took : allocate place t n w ≡ returned b w1
    pub closure : init (found b.packed b.offset n w1) ≡ some (bs, len)
    pub fits : len ≤ n
    pub result : alloc_with_len place t n init w ≡ returned chunk w'
    pub contents : as_slice chunk w' ≡ returned (take len bs) w'
    pub chunks :
        IsChunks c w' free queued rest (span_of chunk.inner.packed chunk.inner.offset n ++ outs)
    pub books : SameBooks w1 w'
    pub others : All (Untouched w w'.mem.bytes) outs

  module _ (b : ChunkBuilder) (w1 : State) (took : allocate place t n w ≡ returned b w1)
      (granted : Granted c t n 3 rest outs b w1) (small : n < 2 ^ 32) where
    -- What is left to do.
    from_builder :
        alloc_with_len place t n init w
        ≡ unwinding
            (drop_builder b)
            (λ _.
              and_then
                (after b.packed b.offset n w1 (init (found b.packed b.offset n w1)))
                (λ len. finish len b))
            w1
    unfolding alloc_with_len
    from_builder =
        let live =
          live_buffer c rest outs granted.free granted.queued b.packed b.offset n w1
            granted.chunks in
        ap
          (λ r.
            and_then r
              (λ b. unwinding (drop_builder b) (fill init b >>= λ len. set_len len b >>= seal)))
          took
        ∙ ap (λ r. unwinding (drop_builder b) (λ _. and_then r (λ len. finish len b)) w1)
            (fill_lem init b w1 live)
        ∙ ap
            (λ (m : ℕ).
              unwinding (drop_builder b)
                (λ _.
                  and_then (after b.packed b.offset m w1 (init (found b.packed b.offset m w1)))
                    (λ len. finish len b))
                w1)
            granted.capacity

    undone :
        (v : State)
        → ((init (found b.packed b.offset n w1) ≡ none)
            ⊎ ((bs : List ℕ) × (len : ℕ) × (init (found b.packed b.offset n w1) ≡ some (bs, len))
                × (n < len)))
        → alloc_with_len place t n init w ≡ panicked (drop_builder b v)
        → IsChunks c v granted.free granted.queued rest (span_of b.packed b.offset n ++ outs)
        → SameBooks w1 v
        → Undone (drop_builder b v)
    undone v why result k same =
        let (queued', left) =
          drop_builder-IsChunks c rest b n v granted.free granted.queued outs k in
        record {
          b = b;
          w1 = w1;
          free = granted.free;
          queued = queued';
          took = took;
          why = why;
          result = result;
          chunks = left;
          books =
              subst (λ (m : ℕ). SameBooks (refund t m b.oversized_bytes w1) (drop_builder b v))
                granted.capacity (drop_builder-SameBooks t b w1 v granted.tenant same);
        }

    finished :
        (bs : List ℕ) (len : ℕ)
        → init (found b.packed b.offset n w1) ≡ some (bs, len)
        → alloc_with_len place t n init w
          ≡ unwinding (drop_builder b) (λ _. finish len b (stored b.packed b.offset n bs w1)) w1
    finished bs len e =
        from_builder
        ∙ ap
            (λ r.
              unwinding (drop_builder b)
                (λ _. and_then (after b.packed b.offset n w1 r) (λ len. finish len b)) w1)
            e

    pub panicked-Undone : init (found b.packed b.offset n w1) ≡ none → (w' : State) × Undone w'
    panicked-Undone e = (
      drop_builder b w1,
      undone w1 (inl e)
          (from_builder
            ∙ ap
                (λ r.
                  unwinding (drop_builder b)
                    (λ _. and_then (after b.packed b.offset n w1 r) (λ len. finish len b)) w1)
                e)
          granted.chunks (record { tenants = refl; stats = refl }),
    )

    pub over-Undone :
        (bs : List ℕ) (len : ℕ)
        → init (found b.packed b.offset n w1) ≡ some (bs, len)
        → n < len
        → (w' : State) × Undone w'
    over-Undone bs len e over =
        let v = stored b.packed b.offset n bs w1 in
        (
          drop_builder b v,
          undone v (inr (bs, len, e, over))
              (finished bs len e
                ∙ ap (λ r. unwinding (drop_builder b) (λ _. r) w1)
                    (finish_over len b v (omega (arith, granted.capacity))))
              (stored-IsChunks c rest outs granted.free granted.queued b.packed b.offset n bs w1
                granted.chunks)
              (stored-SameBooks b.packed b.offset n bs w1),
        )

    pub named-Filled :
        (bs : List ℕ) (len : ℕ)
        → init (found b.packed b.offset n w1) ≡ some (bs, len)
        → length bs ≡ n
        → len ≤ n
        → ((bytes : ℕ → ℕ) → All (Untouched w1 bytes) outs → All (Untouched w bytes) outs)
        → (chunk : Chunk) × (w' : State) × Filled chunk w'
    named-Filled bs len e long fits before =
        let v = stored b.packed b.offset n bs w1 in
        let chunk = sealed (record b { len = len }) t in
        let now =
          stored-IsChunks c rest outs granted.free granted.queued b.packed b.offset n bs w1
            granted.chunks in
        let (queued', left) =
          reseal c rest b.packed b.offset n v granted.free granted.queued outs now in
        (
          chunk,
          resealed b.packed v,
          record {
            b = b;
            w1 = w1;
            free = granted.free;
            queued = queued';
            bs = bs;
            len = len;
            took = took;
            closure = e;
            fits = fits;
            result =
                finished bs len e
                ∙ ap (λ r. unwinding (drop_builder b) (λ _. r) w1)
                    (finish_fits len t b v (omega (arith, granted.capacity))
                      (omega (arith, granted.capacity)) granted.tenant);
            contents =
                slice_lem c rest outs granted.free granted.queued b.offset n len bs w1 chunk
                  b.packed refl refl refl granted.buffer long fits granted.chunks;
            chunks = left;
            books = SameBooks-trans (stored-SameBooks b.packed b.offset n bs w1) (
                SameBooks-trans (clone_option-SameBooks b.packed v)
                  (drop_option-SameBooks b.packed (clone_option b.packed v)));
            others =
                subst (λ m. All (Untouched w (Memory.bytes m)) outs)
                  (sym (
                    resealed-mem c rest b.packed b.offset n v granted.free granted.queued outs now))
                  (before v.mem.bytes (
                    stored-Untouched c rest outs granted.free granted.queued b.packed b.offset n bs
                      w1 granted.chunks));
          },
        )
