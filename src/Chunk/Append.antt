-- ===== src/Chunk/Append.antt =====
-- src/chunk.rs: `ChunkBuilder::append`.
use paged_alloc.Base.{
  ok, err, ℕ, ◌+◌, ◌<◌, ◌≤◌, ◌≡◌, ◌%◌, ◌^◌, refl, ap, ◌∙◌, some, List, [], ◌∷◌, ◌++◌, arith, length,
  All, word, wrapping_add, lt→ltb, ge→ltb, as_u32,
}
use paged_alloc.Memory.{read_bytes, write_bytes}
use paged_alloc.Memory.Region.{SameOutside}
use paged_alloc.Memory.Copy.{write_bytes_outside}
use paged_alloc.Alloc.{Block}
use paged_alloc.Source.{PageSource, Contract}
use paged_alloc.World.{returned}
use paged_alloc.Page.Append.{read-write_after}
use paged_alloc.Chunk.{State, PackedPage}
use paged_alloc.Chunk.Builder.{
  ChunkBuilder, buf_of, with_bytes, builder_slice, write_at, append_bytes, append,
}
use paged_alloc.Chunk.Carved.{Span, page_of}
use paged_alloc.Chunk.Pages.{find_arc-page}
use paged_alloc.Chunk.Holds.{IsChunks}
use paged_alloc.Chunk.Isolated.{Untouched, others-Untouched}
use paged_alloc.Chunk.Written.{written-IsChunks}

pub buf_of_lem :
    (i : ℕ) (w : State) (pg : PackedPage)
    → page_of i w.arcs ≡ some pg
    → buf_of i w ≡ returned pg.buf w
buf_of_lem i w pg is =
    let (a, found, at, _) = find_arc-page i w.arcs pg is in
    rw (found, buf_of) (ap (λ (x : PackedPage). returned x.buf w) at)

-- What a builder with a buffer reads as.
builder_slice_lem :
    (b : ChunkBuilder) (i : ℕ) (w : State) (pg : PackedPage)
    → b.packed ≡ some i
    → page_of i w.arcs ≡ some pg
    → builder_slice b w ≡ returned (read_bytes w.mem.bytes (pg.buf + b.offset) b.len) w
unfolding builder_slice
builder_slice_lem b i w pg held is = rw (held, builder_slice) (rw (buf_of_lem i w pg is) refl)

pub write_at_lem :
    (from : ℕ) (bs : List ℕ) (b : ChunkBuilder) (i : ℕ) (w : State) (pg : PackedPage)
    → b.packed ≡ some i
    → page_of i w.arcs ≡ some pg
    → write_at from bs b w
      ≡ returned tt (with_bytes w (write_bytes w.mem.bytes (pg.buf + b.offset + from) bs))
unfolding write_at
write_at_lem from bs b i w pg held is = rw (held, write_at) (rw (buf_of_lem i w pg is) refl)

-- The end of `append`.
append_bytes_lem :
    (bs : List ℕ) (b : ChunkBuilder) (i : ℕ) (w : State) (pg : PackedPage)
    → b.packed ≡ some i
    → page_of i w.arcs ≡ some pg
    → b.len + length bs < 2 ^ 32
    → append_bytes bs b w
      ≡ returned
          (ok (record b { len = b.len + length bs }))
          (with_bytes w (write_bytes w.mem.bytes (pg.buf + b.offset + b.len) bs))
unfolding append_bytes write_bytes
append_bytes_lem [] b i w pg held is small =
    let same : b.len ≡ b.len + 0 = omega arith in
    ap (λ (n : ℕ). returned (ok (record b { len = n })) w) same
append_bytes_lem (x ∷ xs) b i w pg held is small =
    let total : (b.len + as_u32 (length (x ∷ xs))) % 2 ^ 32 ≡ b.len + length (x ∷ xs) =
      omega arith in
    rw (write_at_lem b.len (x ∷ xs) b i w pg held is, append_bytes)
      (ap
        (λ (n : ℕ).
          returned (ok (record b { len = n }))
            (with_bytes w (write_bytes w.mem.bytes (pg.buf + b.offset + b.len) (x ∷ xs))))
        total)

append_lem :
    (bs : List ℕ) (b : ChunkBuilder) (w : State)
    → b.len + length bs ≤ b.capacity
    → b.capacity < 2 ^ 32
    → append bs b w ≡ append_bytes bs b w
unfolding append
append_lem bs b w fits small =
    let total : wrapping_add b.len (length bs) ≡ b.len + length bs = omega arith in
    rw (total, ge→ltb b.capacity (b.len + length bs) fits, append) refl

module _ {s : PageSource} (c : Contract s) (w : State) (free queued : List ℕ) (rest : List Block)
    (outs : List Span) (b : ChunkBuilder) (i : ℕ) (bs : List ℕ) where
  -- The bytes have been added behind those that were there, for this builder and no other.
  pub record Appended (b' : ChunkBuilder) (w' : State) : Type 0 where
    pub result : append bs b w ≡ returned (ok b') w'
    pub len : b'.len ≡ b.len + length bs
    pub before : List ℕ
    pub was : builder_slice b w ≡ returned before w
    pub contents : builder_slice b' w' ≡ returned (before ++ bs) w'
    pub others : All (Untouched w w'.mem.bytes) outs
    pub chunks :
        IsChunks c w' free queued rest
          (record { id = i; offset = b'.offset; size = b'.capacity } ∷ outs)

  -- An append that fits, to a builder with a buffer and a capacity below 2^32, returns the builder
  -- with the bytes added behind those that were there; the bytes of every other builder and chunk
  -- are as before, whichever buffer it is on, and the invariant is kept.
  pub append-Appended :
      b.packed ≡ some i
      → b.len + length bs ≤ b.capacity
      → b.capacity < 2 ^ 32
      → IsChunks c w free queued rest
          (record { id = i; offset = b.offset; size = b.capacity } ∷ outs)
      → (b' : ChunkBuilder) × (w' : State) × Appended b' w'
  append-Appended held fits small k =
      let (pg, is, inside) = k.carved.within.0 in
      let p = pg.buf + b.offset in
      let bytes = write_bytes w.mem.bytes (p + b.len) bs in
      let same : SameOutside p b.capacity w.mem.bytes bytes =
        λ q out. write_bytes_outside w.mem.bytes (p + b.len) bs q (omega arith) in
      (
        record b { len = b.len + length bs },
        with_bytes w bytes,
        record {
          result =
              append_lem bs b w fits small ∙ append_bytes_lem bs b i w pg held is (omega arith);
          len = refl;
          before = read_bytes w.mem.bytes p b.len;
          was = builder_slice_lem b i w pg held is;
          contents =
              builder_slice_lem (record b { len = b.len + length bs }) i (with_bytes w bytes) pg
                held is
              ∙ ap (λ (xs : List ℕ). returned xs (with_bytes w bytes))
                  (read-write_after w.mem.bytes p b.len bs);
          others =
              others-Untouched c w free queued rest _ k.counted
                (record { id = i; offset = b.offset; size = b.capacity }) pg is inside bytes same
                outs k.carved.within.1 k.carved.separate.0;
          chunks =
              written-IsChunks c w free queued rest _ i pg bytes k is
                (λ q out. same q (omega (arith, inside)));
        },
      )

-- An append to a chunk builder that does not fit is refused with the three numbers, and nothing
-- changes.
pub append-ChunkFull :
    (b : ChunkBuilder) (bs : List ℕ) (w : State)
    → b.capacity < b.len + length bs
    → b.len + length bs < word
    → append bs b w
      ≡ returned (err (record { capacity = b.capacity; len = b.len; attempted = length bs })) w
unfolding append
append-ChunkFull b bs w over small =
    let total : wrapping_add b.len (length bs) ≡ b.len + length bs = omega arith in
    rw (total, lt→ltb b.capacity (b.len + length bs) over, append) refl
