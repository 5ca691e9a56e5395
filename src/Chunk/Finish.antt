-- ===== src/Chunk/Finish.antt =====
-- src/chunk.rs: the end of `ChunkPool::alloc_with_len`, and its unwinding.
use paged_alloc.Base.{ℕ, ◌<◌, ◌≤◌, ◌≡◌, ◌%◌, ◌^◌, refl, ap, some, arith, le→leb, gt→leb}
use paged_alloc.World.{Run, returned, panicked, ◌>>=◌}
use paged_alloc.Tenant.{Tenants}
use paged_alloc.Chunk.{ChunkPoolStats, State, refund}
use paged_alloc.Chunk.Builder.{ChunkBuilder, Chunk, set_len, seal, drop_builder}
use paged_alloc.Chunk.Books.{SameBooks, SameBooks-trans, drop_option-SameBooks}
use paged_alloc.Chunk.Lifetime.{sealed}
use paged_alloc.Chunk.Closure.{resealed}

-- The end of `alloc_with_len`, once the closure has returned `len`.
abbrev pub finish : ℕ → ChunkBuilder → State → Run State Chunk
finish len b v = (set_len len b >>= seal) v

pub finish_fits :
    (len t : ℕ) (b : ChunkBuilder) (v : State)
    → len ≤ b.capacity
    → b.capacity < 2 ^ 32
    → b.tenant ≡ some t
    → finish len b v ≡ returned (sealed (record b { len = len }) t) (resealed b.packed v)
unfolding set_len seal drop_builder
finish_fits len t b v fits small has =
    let low : len % 2 ^ 32 ≡ len = omega arith in
    rw (le→leb len b.capacity fits, has, seal, drop_builder)
      (ap (λ (n : ℕ). returned (sealed (record b { len = n }) t) (resealed b.packed v)) low)

pub finish_over :
    (len : ℕ) (b : ChunkBuilder) (v : State) → b.capacity < len → finish len b v ≡ panicked v
unfolding set_len
finish_over len b v over = rw (gt→leb len b.capacity over) refl

refund-SameBooks :
    (t n o : ℕ) (w v : State) → SameBooks w v → SameBooks (refund t n o w) (refund t n o v)
unfolding refund
refund-SameBooks t n o w v same = record {
  tenants =
      ap (λ (all : Tenants). (refund t n o (record w { tenants = all })).tenants) same.tenants;
  stats =
      ap
        (λ (stats : ChunkPoolStats).
          (refund t n o (record w { pool = record w.pool { stats = stats } })).pool.stats)
        same.stats;
}

pub drop_builder-SameBooks :
    (t : ℕ) (b : ChunkBuilder) (w v : State)
    → b.tenant ≡ some t
    → SameBooks w v
    → SameBooks (refund t b.capacity b.oversized_bytes w) (drop_builder b v)
unfolding drop_builder
drop_builder-SameBooks t b w v has same =
    rw (has, drop_builder)
      (SameBooks-trans (refund-SameBooks t b.capacity b.oversized_bytes w v same)
        (drop_option-SameBooks b.packed (refund t b.capacity b.oversized_bytes v)))
