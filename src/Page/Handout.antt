-- ===== src/Page/Handout.antt =====
-- `PagePool::allocate` (src/pool.rs): a builder for a page that nobody else holds.
use paged_alloc.Base.{ℕ, ◌≡◌, refl, ap, ◌∙◌, none, some, List, [], ◌∷◌, ◌++◌, ◌⊎◌, inl, inr}
use paged_alloc.Alloc.{Block, Memory}
use paged_alloc.Source.{PageSource, Contract}
use paged_alloc.Tenant.{on, record_allocate}
use paged_alloc.Pool.{PagePool, allocate_raw_page}
use paged_alloc.Pool.Invariant.{IsPool}
use paged_alloc.Pool.Reuse.{
  left_free, left_queued, allocate_raw_page-reuse, allocate_raw_page_cases,
}
use paged_alloc.World.{World, Run, Act, returned, fail, and_then, and_then-fail}
use paged_alloc.Page.{builder}
use paged_alloc.Page.Allocate.{allocate, refused}

-- The pool of a world.
abbrev pub Holds :
    {s : PageSource} → Contract s → World → List ℕ → List ℕ → List ℕ → List Block → Type 0
Holds c w = IsPool c w.pool w.mem

-- The source is asked with no page at hand, and fails: a panic leaves all as it was but for the count
-- of the page that was to come.
pub record Refused (s : PageSource) (w : World) (free queued : List ℕ) {A : Type 0}
    (r : Run World A) : Type 0 where
  pub no_free : free ≡ []
  pub no_queued : queued ≡ []
  pub source : s.allocate w.mem ≡ none
  pub result : r ≡ fail s.unwinds (refused w)

pub Refused-and_then :
    {s : PageSource} {w : World} {free queued : List ℕ} {A B : Type 0} {r : Run World A}
    (f : A → Act World B)
    → Refused s w free queued r
    → Refused s w free queued (and_then r f)
Refused-and_then {s} {w} f k = record {
  no_free = k.no_free;
  no_queued = k.no_queued;
  source = k.source;
  result = ap (λ r. and_then r f) k.result ∙ and_then-fail s.unwinds (refused w) f;
}

module _ {s : PageSource} (c : Contract s) (t : ℕ) where
  -- The page `p` has moved to the pages in use, and the tenant is charged for it.
  pub record Handed (w : World) (free queued used : List ℕ) (rest : List Block) (p : ℕ) (w' : World)
      : Type 0 where
    pub holds : Holds c w' (left_free free queued) (left_queued free queued) (p ∷ used) rest
    pub tenants : w'.tenants ≡ on w.tenants t (λ u. record_allocate u s.page_size)

  allocate-some :
      (w : World) (p : ℕ) (pool : PagePool) (m : Memory)
      → allocate_raw_page w.pool w.mem ≡ some (p, pool, m)
      → allocate t w
        ≡ returned (builder t p) (record {
          pool = pool;
          mem = m;
          tenants = on w.tenants t (λ u. record_allocate u pool.shared.page_size);
        })
  unfolding allocate
  allocate-some w p pool m e = rw (e, allocate)

  -- With a free page at hand `allocate` takes the first one, writes nothing and cannot fail.
  pub allocate-reuse :
      (w : World) (free queued used : List ℕ) (rest : List Block) (p : ℕ) (ps : List ℕ)
      → Holds c w free queued used rest
      → free ++ queued ≡ p ∷ ps
      → (w' : World) × (allocate t w ≡ returned (builder t p) w')
        × Handed w free queued used rest p w'
        × (w'.mem ≡ w.mem)
  allocate-reuse w free queued used rest p ps k e =
      let (pool, got, kept) =
        allocate_raw_page-reuse c w.pool w.mem free queued used rest p ps k e in
      (
        _,
        allocate-some w p pool w.mem got,
        record {
          holds = kept;
          tenants = ap (λ (n : ℕ). on w.tenants t (λ u. record_allocate u n)) kept.page_size;
        },
        refl,
      )

  allocate-fail :
      (w : World) (free queued used : List ℕ) (rest : List Block)
      → Holds c w free queued used rest
      → allocate_raw_page w.pool w.mem ≡ none
      → allocate t w ≡ fail s.unwinds (refused w)
  unfolding allocate
  allocate-fail w free queued used rest k e =
      rw (e, allocate) (ap (λ (o : PageSource). fail o.unwinds (refused w)) k.source)

  -- On every path of `PagePool::allocate`: the source fails with no page at hand, or the builder
  -- has a page that has moved to those in use and is charged to the tenant.
  pub allocate_cases :
      (w : World) (free queued used : List ℕ) (rest : List Block)
      → Holds c w free queued used rest
      → Refused s w free queued (allocate t w)
        ⊎ ((p : ℕ) × (w' : World) × (allocate t w ≡ returned (builder t p) w')
            × Handed w free queued used rest p w')
  allocate_cases w free queued used rest k =
      elim (allocate_raw_page_cases c w.pool w.mem free queued used rest k) [
        | inl (e, f, failed, source) ↦ inl (record {
          no_free = e;
          no_queued = f;
          source = source;
          result = allocate-fail w free queued used rest k failed;
        })
        | inr (p, pool, m, took, kept) ↦ inr (
          p,
          _,
          allocate-some w p pool m took,
          record {
            holds = kept;
            tenants = ap (λ (n : ℕ). on w.tenants t (λ u. record_allocate u n)) kept.page_size;
          },
        )
      ]
