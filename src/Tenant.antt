-- ===== src/Tenant.antt =====
-- src/tenant.rs: a tenant's counters. The atomic counters are 64-bit words that wrap; each method
-- is one step here, since the counters are advisory and every update is a read-modify-write.
pub mod Account
use paged_alloc.Base.{ℕ, ltb, ◌==◌, if◌then◌else◌, wrapping_add, wrapping_sub}

pub record TenantStats : Type 0 where
  pub bytes_in_use : ℕ
  pub pages_in_use : ℕ
  pub total_pages_allocated : ℕ
  pub peak_bytes_in_use : ℕ
  pub chunks_in_use : ℕ
  pub total_chunks_allocated : ℕ

-- `TenantStats::default()`, in `Tenant::new`.
abbrev pub fresh : TenantStats
fresh = record {
  bytes_in_use = 0;
  pages_in_use = 0;
  total_pages_allocated = 0;
  peak_bytes_in_use = 0;
  chunks_in_use = 0;
  total_chunks_allocated = 0;
}

-- The counters of every tenant. A `Tenant` and its clones refer to one entry by its number, which
-- stands for the `Arc` that they share.
abbrev pub Tenants : Type 0
Tenants = ℕ → TenantStats

-- The call of a method on one tenant's counters.
abbrev pub on : Tenants → ℕ → (TenantStats → TenantStats) → Tenants
on all t method u = if t == u then method (all u) else all u

unfoldable pub record_allocate : TenantStats → ℕ → TenantStats
record_allocate t page_bytes =
    let new_bytes = wrapping_add t.bytes_in_use page_bytes in
    record t {
      total_pages_allocated = wrapping_add t.total_pages_allocated 1;
      pages_in_use = wrapping_add t.pages_in_use 1;
      bytes_in_use = new_bytes;
      peak_bytes_in_use =
          if ltb t.peak_bytes_in_use new_bytes then new_bytes else t.peak_bytes_in_use;
    }

unfoldable pub record_release : TenantStats → ℕ → TenantStats
record_release t page_bytes = record t {
  bytes_in_use = wrapping_sub t.bytes_in_use page_bytes;
  pages_in_use = wrapping_sub t.pages_in_use 1;
}

unfoldable pub record_chunk_allocate : TenantStats → ℕ → TenantStats
record_chunk_allocate t chunk_bytes =
    let new_bytes = wrapping_add t.bytes_in_use chunk_bytes in
    record t {
      total_chunks_allocated = wrapping_add t.total_chunks_allocated 1;
      chunks_in_use = wrapping_add t.chunks_in_use 1;
      bytes_in_use = new_bytes;
      peak_bytes_in_use =
          if ltb t.peak_bytes_in_use new_bytes then new_bytes else t.peak_bytes_in_use;
    }

unfoldable pub record_chunk_release : TenantStats → ℕ → TenantStats
record_chunk_release t chunk_bytes = record t {
  bytes_in_use = wrapping_sub t.bytes_in_use chunk_bytes;
  chunks_in_use = wrapping_sub t.chunks_in_use 1;
}
