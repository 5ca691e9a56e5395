-- ===== src/Page.antt =====
-- src/page.rs and the allocating methods of src/pool.rs: a page is filled through a builder, sealed
-- and shared. The pool that a handle refers to is that of the `World`, and a
-- tenant is its number there.
pub mod Builder
pub mod Allocate
pub mod Handout
pub mod Append
pub mod Sealed
pub mod Filled
use paged_alloc.Base.{
  ℕ, suc, ◌+◌, ◌-◌, Bool, true, false, Option, none, some, List, [], ◌∷◌, ◌++◌, leb, ◌==◌,
  if◌then◌else◌, length, wrapping_add,
}
use paged_alloc.Memory.{read_bytes, write_bytes}
use paged_alloc.Alloc.{Memory}
use paged_alloc.Tenant.{on, record_release}
use paged_alloc.Pool.{PagePool, allocate_raw_page, push_return}
use paged_alloc.World.{
  expect, with_bytes, World, Run, returned, panicked, aborted, Act, pure, panic, unwinding, ◌>>=◌,
  ◌>>◌,
}

pub record PageFull : Type 0 where
  pub capacity : ℕ
  pub len : ℕ
  pub attempted : ℕ

pub record PageBuilder : Type 0 where
  pub buf : Option ℕ
  pub len : ℕ
  pub tenant : ℕ

pub record PageInner : Type 0 where
  pub buf : Option ℕ
  pub capacity : ℕ
  pub len : ℕ
  pub tenant : ℕ

-- `Arc<PageInner>` with its strong count: what every clone of one `Page` refers to.
pub record Page : Type 0 where
  pub inner : PageInner
  pub ref_count : ℕ

-- `PageBuilder::new`.
abbrev pub builder : ℕ → ℕ → PageBuilder
builder t p = record { buf = some p; len = 0; tenant = t }

-- A raw copy into memory.
abbrev pub store : ℕ → List ℕ → Act World (Unit {0})
store a bs w = returned tt (with_bytes w (write_bytes w.mem.bytes a bs))

abbrev pub page_size : World → ℕ
page_size w = w.pool.shared.page_size

-- What both destructors do to a buffer that is still held.
unfoldable pub release : ℕ → ℕ → ℕ → World → World
release t p capacity w =
    let (shared, m) = push_return w.pool.shared w.mem p in
    record {
      pool = record w.pool { shared = shared };
      mem = m;
      tenants = on w.tenants t (λ s. record_release s capacity);
    }

-- `Drop for PageBuilder`.
unfoldable pub drop_builder : PageBuilder → World → World
drop_builder b w = elim b.buf [ none ↦ w | some p ↦ release b.tenant p (page_size w) w ]

-- `Drop for PageInner`.
unfoldable pub drop_inner : PageInner → World → World
drop_inner inner w = elim inner.buf [ none ↦ w | some p ↦ release inner.tenant p inner.capacity w ]

-- `Clone for Page`: one more strong reference.
unfoldable pub clone : Page → Page
clone page = record page { ref_count = suc page.ref_count }

-- Dropping one clone; the last one drops the `PageInner`.
unfoldable pub drop_page : Page → World → Option Page × World
drop_page page w =
    if page.ref_count == 1
    then (none, drop_inner page.inner w)
    else (some (record page { ref_count = page.ref_count - 1 }), w)

-- `Page::as_slice`.
unfoldable pub as_slice : Page → Act World (List ℕ)
as_slice page = do
  p ← expect page.inner.buf
  λ w. returned (read_bytes w.mem.bytes p page.inner.len) w
