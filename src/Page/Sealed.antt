-- ===== src/Page/Sealed.antt =====
-- A page's life: `PagePool::alloc_from` (src/pool.rs), clones and the last drop (src/page.rs).
use paged_alloc.Base.{
  ℕ, ◌≤◌, ◌<◌, ◌≡◌, refl, sym, subst, ap, ◌∙◌, none, some, List, [], ◌∷◌, ◌⊎◌, inl, inr, arith,
  length, word, le→leb, gt→leb,
}
use paged_alloc.Memory.{read_bytes, write_bytes}
use paged_alloc.Memory.Copy.{write_bytes_outside, read-write_bytes}
use paged_alloc.Alloc.{Block}
use paged_alloc.Source.{PageSource, Contract}
use paged_alloc.Tenant.{on, TenantStats, record_allocate, record_release}
use paged_alloc.Pool.Return.{push_return-IsPool}
use paged_alloc.Pool.Write.{write-IsPool}
use paged_alloc.Pool.Reuse.{left_free, left_queued}
use paged_alloc.World.{World, returned, panicked, with_bytes, and_then}
use paged_alloc.Page.{Page, builder, page_size, release, drop_inner, drop_page, clone, as_slice}
use paged_alloc.Page.Builder.{seal, set_len}
use paged_alloc.Page.Allocate.{allocate, copy_in, alloc_from}
use paged_alloc.Page.Handout.{Refused, Refused-and_then, Holds, Handed, allocate_cases}

-- The sealed page of capacity `n` over the buffer at `p`.
abbrev pub sealed : ℕ → ℕ → ℕ → ℕ → Page
sealed t p n len = record {
  inner = record { buf = some p; capacity = n; len = len; tenant = t };
  ref_count = 1;
}

-- Copying at most a page of bytes into a fresh builder.
copy_in_lem :
    (t : ℕ) (bs : List ℕ) (p : ℕ) (w : World)
    → length bs ≤ page_size w
    → copy_in bs (builder t p) w
      ≡ returned
          (sealed t p (page_size w) (length bs))
          (with_bytes w (write_bytes w.mem.bytes p bs))
unfolding copy_in seal set_len write_bytes
copy_in_lem t [] p w fits = refl
copy_in_lem t (x ∷ xs) p w fits = ground arith

pub as_slice_lem :
    (t p n len : ℕ) (w : World)
    → as_slice (sealed t p n len) w ≡ returned (read_bytes w.mem.bytes p len) w
unfolding as_slice
as_slice_lem t p n len w = refl

-- A copy of `bs` that has been filed: the page is in use, charged, and reads as `bs`.
pub record Filed {s : PageSource} (c : Contract s) (w : World) (free queued used : List ℕ)
    (rest : List Block) (t : ℕ) (bs : List ℕ) (p : ℕ) (w' : World) : Type 0 where
  pub result : alloc_from t bs w ≡ returned (sealed t p s.page_size (length bs)) w'
  pub holds : Holds c w' (left_free free queued) (left_queued free queued) (p ∷ used) rest
  pub contents : as_slice (sealed t p s.page_size (length bs)) w' ≡ returned bs w'
  pub tenants : w'.tenants ≡ on w.tenants t (λ u. record_allocate u s.page_size)

alloc_from-eq :
    (t : ℕ) (bs : List ℕ) (w : World)
    → length bs ≤ page_size w
    → alloc_from t bs w ≡ and_then (allocate t w) (copy_in bs)
unfolding alloc_from
alloc_from-eq t bs w fits = rw (le→leb (length bs) (page_size w) fits)

module _ {s : PageSource} (c : Contract s) (w : World) (free queued used : List ℕ)
    (rest : List Block) (t : ℕ) (bs : List ℕ) where
  file :
      (p : ℕ) (w' : World)
      → length bs ≤ page_size w
      → Holds c w free queued used rest
      → allocate t w ≡ returned (builder t p) w'
      → Handed c t w free queued used rest p w'
      → Filed c w free queued used rest t bs p (with_bytes w' (write_bytes w'.mem.bytes p bs))
  file p w' fits k took got = record {
    result =
        alloc_from-eq t bs w fits
        ∙ ap (λ r. and_then r (copy_in bs)) took
        ∙ copy_in_lem t bs p w' (omega (arith, size))
        ∙ ap
            (λ (n : ℕ).
              returned (sealed t p n (length bs)) (with_bytes w' (write_bytes w'.mem.bytes p bs)))
            got.holds.page_size;
    holds =
        write-IsPool c w'.pool w'.mem _ p _ _ used rest
          (λ q out. write_bytes_outside w'.mem.bytes p bs q (omega (arith, k.page_size))) refl
          got.holds;
    contents =
        as_slice_lem t p s.page_size (length bs) (with_bytes w' (write_bytes w'.mem.bytes p bs))
        ∙ ap (λ xs. returned xs (with_bytes w' (write_bytes w'.mem.bytes p bs)))
            (read-write_bytes w'.mem.bytes p bs);
    tenants = got.tenants;
  }
    where
      size : w'.pool.shared.page_size ≡ w.pool.shared.page_size
      size = got.holds.page_size ∙ sym k.page_size

  -- `alloc_from` of data that fits in a page fails only where no page is free and the source fails,
  -- and then it ends the process or panics as the source does, with only the count of the page that
  -- did not come changed; otherwise it gives a page in use that reads back as the data, charged to
  -- the tenant, with the invariant of the pool kept.
  pub alloc_from-Filed :
      length bs ≤ page_size w
      → Holds c w free queued used rest
      → Refused s w free queued (alloc_from t bs w)
        ⊎ ((p : ℕ) × (w' : World) × Filed c w free queued used rest t bs p w')
  alloc_from-Filed fits k = elim (allocate_cases c t w free queued used rest k) [
    | inl refusal ↦ inl (
        subst (Refused s w free queued) (sym (alloc_from-eq t bs w fits))
          (Refused-and_then (copy_in bs) refusal))
    | inr (p, w', took, got) ↦ inr (p, _, file p w' fits k took got)
  ]

-- `alloc_from` of more bytes than a page panics before anything is allocated.
pub alloc_from_too_long :
    (t : ℕ) (bs : List ℕ) (w : World) → page_size w < length bs → alloc_from t bs w ≡ panicked w
unfolding alloc_from
alloc_from_too_long t bs w over = rw (gt→leb (length bs) (page_size w) over)

-- Dropping the last clone of a page refunds the tenant and puts the buffer on the return queue; the
-- invariant of the pool is kept.
pub drop_page-last :
    {s : PageSource} (c : Contract s) (w : World) (t p len : ℕ) (free queued used : List ℕ)
    (rest : List Block)
    → Holds c w free queued (p ∷ used) rest
    → let (left, w') = drop_page (sealed t p s.page_size len) w in
      (left ≡ none)
      × Holds c w' free (p ∷ queued) used rest
      × (w'.tenants ≡ on w.tenants t (λ u. record_release u s.page_size))
unfolding drop_page drop_inner release
drop_page-last c w t p len free queued used rest k =
    (refl, push_return-IsPool c w.pool w.mem p free queued used rest k, refl)

-- A clone of a page that is dropped changes nothing, as long as another is left.
pub drop_page-clone :
    (page : Page) (w : World) → 0 < page.ref_count → drop_page (clone page) w ≡ (some page, w)
unfolding drop_page clone
drop_page-clone page w alive = ground arith

-- Charging a page to a tenant and refunding it leaves the counters of what is in use as they were.
pub release-allocate :
    (t : TenantStats) (n : ℕ)
    → t.bytes_in_use < word
    → t.pages_in_use < word
    → let u = record_release (record_allocate t n) n in
      (u.bytes_in_use ≡ t.bytes_in_use) × (u.pages_in_use ≡ t.pages_in_use)
unfolding record_release record_allocate
release-allocate t n small few = ground arith
