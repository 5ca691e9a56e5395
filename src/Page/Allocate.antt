-- ===== src/Page/Allocate.antt =====
-- src/pool.rs: the methods of `PagePool` that hand out builders and sealed pages.
use paged_alloc.Base.{ℕ, Option, none, some, List, [], ◌∷◌, leb, if◌then◌else◌, length}
use paged_alloc.Tenant.{on, record_allocate}
use paged_alloc.Pool.{charged, allocate_raw_page}
use paged_alloc.World.{expect, World, returned, panicked, fail, Act, unwinding, ◌>>=◌, ◌>>◌}
use paged_alloc.Page.{PageBuilder, Page, builder, page_size, drop_builder, store}
use paged_alloc.Page.Builder
use paged_alloc.Page.Builder.{fill, set_len, seal}

-- Where the source fails: `allocate_fresh` has counted the page already.
abbrev pub refused : World → World
refused w = record w { pool = charged w.pool }

-- `PagePool::allocate`.
unfoldable pub allocate : ℕ → Act World PageBuilder
allocate t w = elim (allocate_raw_page w.pool w.mem) [
  | none ↦ fail w.pool.shared.source.unwinds (refused w)
  | some (p, pool, m) ↦ returned (builder t p) (record {
    pool = pool;
    mem = m;
    tenants = on w.tenants t (λ s. record_allocate s pool.shared.page_size);
  })
]

-- The rest of `alloc_from` once it has its builder.
unfoldable pub copy_in : List ℕ → PageBuilder → Act World Page
copy_in [] b = seal b
copy_in (x ∷ xs) b =
    unwinding (drop_builder b)
      (do p ← expect b.buf; store p (x ∷ xs); b' ← set_len (length (x ∷ xs)) b; seal b')

-- `PagePool::alloc_from`.
unfoldable pub alloc_from : ℕ → List ℕ → Act World Page
alloc_from t bs w =
    if leb (length bs) (page_size w) then (allocate t >>= copy_in bs) w else panicked w

-- `PagePool::alloc_with`.
unfoldable pub alloc_with : ℕ → (List ℕ → Option (List ℕ × Unit {0})) → Act World Page
alloc_with t init = do
  b ← allocate t
  unwinding (drop_builder b) (do fill init b; b' ← λ w. set_len (Builder.capacity w) b w; seal b')

-- `PagePool::alloc_with_len`.
unfoldable pub alloc_with_len : ℕ → (List ℕ → Option (List ℕ × ℕ)) → Act World Page
alloc_with_len t init = do
  b ← allocate t
  unwinding (drop_builder b) (do len ← fill init b; b' ← set_len len b; seal b')
