-- ===== src/Chunk/Builder.antt =====
-- src/chunk.rs: `ChunkBuilder`, and `Chunk` with its `ChunkInner`.
use paged_alloc.Base.{
  Result, ok, err, ℕ, suc, ◌+◌, ◌-◌, Option, none, some, List, [], ◌∷◌, leb, ltb, ◌==◌,
  if◌then◌else◌, length, take, wrapping_add, as_u32, ◌^◌, ◌%◌,
}
use paged_alloc.Memory.{read_bytes, write_bytes}
use paged_alloc.World.{returned, panicked, Act, pure, panic, expect, ◌>>=◌, ◌>>◌}
use paged_alloc.Chunk.{ChunkFull, State, find_arc, drop_option, clone_option, refund}

-- `packed` and `tenant` are the numbers of what the handles refer to.
pub record ChunkBuilder : Type 0 where
  pub packed : Option ℕ
  pub tenant : Option ℕ
  pub oversized_bytes : ℕ
  pub offset : ℕ
  pub capacity : ℕ
  pub len : ℕ

pub record ChunkInner : Type 0 where
  pub packed : Option ℕ
  pub tenant : ℕ
  pub oversized_bytes : ℕ
  pub offset : ℕ
  pub capacity : ℕ
  pub length : ℕ

-- `Arc<ChunkInner>` with its strong count: what every clone of one `Chunk` refers to.
pub record Chunk : Type 0 where
  pub inner : ChunkInner
  pub ref_count : ℕ

-- `page.buf` behind the `Arc` numbered `id`.
abbrev pub buf_of : ℕ → Act State ℕ
buf_of id w = elim (find_arc id w.arcs) [ none ↦ panicked w | some a ↦ returned a.page.buf w ]

abbrev pub with_bytes : State → (ℕ → ℕ) → State
with_bytes w bytes = record w { mem = record w.mem { bytes = bytes } }

unfoldable pub remaining : ChunkBuilder → ℕ
remaining b = (b.capacity + 2 ^ 32 - b.len) % 2 ^ 32

-- `ChunkBuilder::as_slice`.
unfoldable pub builder_slice : ChunkBuilder → Act State (List ℕ)
builder_slice b = elim b.packed [
  | none ↦ pure []
  | some id ↦ buf_of id >>= λ p w. returned (read_bytes w.mem.bytes (p + b.offset) b.len) w
]

-- A write through `ChunkBuilder::as_mut_slice` at `from`, which the caller has checked to fit. A
-- builder with no buffer has the empty slice.
unfoldable pub write_at : ℕ → List ℕ → ChunkBuilder → Act State (Unit {0})
write_at from bs b = elim b.packed [
  | none ↦ pure tt
  | some id ↦ buf_of id >>= λ p w.
      returned tt (with_bytes w (write_bytes w.mem.bytes (p + b.offset + from) bs))
]

-- A closure given `as_mut_slice`: what it leaves there, and its result; `none` if it panics.
unfoldable pub fill : {A : Type 0} → (List ℕ → Option (List ℕ × A)) → ChunkBuilder → Act State A
fill init b = elim b.packed [
  | none ↦ λ w. elim (init []) [ none ↦ panicked w | some (_, a) ↦ returned a w ]
  | some id ↦ buf_of id >>= λ p w. elim (init (read_bytes w.mem.bytes (p + b.offset) b.capacity)) [
    | none ↦ panicked w
    | some (bs, a) ↦
        returned a (with_bytes w (write_bytes w.mem.bytes (p + b.offset) (take b.capacity bs)))
  ]
]

-- `ChunkBuilder::set_len`.
unfoldable pub set_len : ℕ → ChunkBuilder → Act State ChunkBuilder
set_len len b = if leb len b.capacity then pure (record b { len = as_u32 len }) else panic

-- The end of `append`, once the bytes are known to fit.
unfoldable pub append_bytes : List ℕ → ChunkBuilder → Act State (Result ChunkFull ChunkBuilder)
append_bytes [] b = pure (ok b)
append_bytes (x ∷ xs) b = do
  write_at b.len (x ∷ xs) b
  pure (ok (record b { len = (b.len + as_u32 (length (x ∷ xs))) % 2 ^ 32 }))

-- `ChunkBuilder::append`.
unfoldable pub append : List ℕ → ChunkBuilder → Act State (Result ChunkFull ChunkBuilder)
append bs b =
    if ltb b.capacity (wrapping_add b.len (length bs))
    then pure (err (record { capacity = b.capacity; len = b.len; attempted = length bs }))
    else append_bytes bs b

-- `Drop for ChunkBuilder`, and the drop of its fields.
unfoldable pub drop_builder : ChunkBuilder → State → State
drop_builder b w =
    drop_option b.packed
      (elim b.tenant [ none ↦ w | some t ↦ refund t b.capacity b.oversized_bytes w ])

-- `ChunkBuilder::seal`: the buffer's `Arc` is cloned, and the builder drops with its tenant taken.
unfoldable pub seal : ChunkBuilder → Act State Chunk
seal b = expect b.tenant >>= λ t w.
    returned
      (record {
        inner = record {
          packed = b.packed;
          tenant = t;
          oversized_bytes = b.oversized_bytes;
          offset = b.offset;
          capacity = b.capacity;
          length = b.len;
        };
        ref_count = 1;
      })
      (drop_builder (record b { tenant = none }) (clone_option b.packed w))

-- `Drop for ChunkInner`, and the drop of its fields.
unfoldable pub drop_inner : ChunkInner → State → State
drop_inner inner w =
    drop_option inner.packed (refund inner.tenant inner.capacity inner.oversized_bytes w)

-- `Clone for Chunk`.
unfoldable pub clone : Chunk → Chunk
clone chunk = record chunk { ref_count = suc chunk.ref_count }

-- Dropping one clone; the last one drops the `ChunkInner`.
unfoldable pub drop_chunk : Chunk → State → Option Chunk × State
drop_chunk chunk w =
    if chunk.ref_count == 1
    then (none, drop_inner chunk.inner w)
    else (some (record chunk { ref_count = chunk.ref_count - 1 }), w)

-- `Chunk::as_slice`.
unfoldable pub as_slice : Chunk → Act State (List ℕ)
as_slice chunk = elim chunk.inner.packed [
  | none ↦ pure []
  | some id ↦ buf_of id >>= λ p w.
      returned (read_bytes w.mem.bytes (p + chunk.inner.offset) chunk.inner.length) w
]
