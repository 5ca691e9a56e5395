-- ===== src/Pool/Reuse.antt =====
-- What `PagePool::allocate_raw_page` (src/pool.rs) does to the invariant, path by path.
use mathlib.Core.List.Perm
use paged_alloc.Base.{
  ℕ, ◌≡◌, refl, sym, subst, ◌⊎◌, inl, inr, Option-cases, none, some, List, [], ◌∷◌, ◌++◌, arith,
}
use paged_alloc.Memory.{read_ptr}
use paged_alloc.Alloc.{Block, Memory}
use paged_alloc.Alloc.Zeroed.{Allocated}
use paged_alloc.Source.{PageSource, Contract}
use paged_alloc.Pool.{PagePool, popped, swap_queue, charged, counted, allocate_raw_page}
use paged_alloc.Pool.Ownership.{Owns-perm, Owns-Allocated, page, used_first}
use paged_alloc.Pool.Chain.{Chain}
use paged_alloc.Pool.Invariant.{IsPool}
use paged_alloc.Pool.Acquire.{
  pop_local-some, pop_local-none, raw_of_local, raw_of_queue, raw_of_source, drain_some, drain_none,
  raw_refused,
}

-- What is left of the two lists once a page has been taken from them.
abbrev pub left_free : List ℕ → List ℕ → List ℕ
left_free (p ∷ free) queued = free
left_free [] [] = []
left_free [] (p ∷ queued) = queued

abbrev pub left_queued : List ℕ → List ℕ → List ℕ
left_queued (p ∷ free) queued = queued
left_queued [] queued = []

module _ {s : PageSource} (c : Contract s) (pool : PagePool) (m : Memory) where
  popped-IsPool :
      {p : ℕ} {free queued used : List ℕ} {rest : List Block}
      → IsPool c pool m (p ∷ free) queued used rest
      → IsPool c (counted (popped pool m)) m free queued (p ∷ used) rest
  popped-IsPool {p} {free} {queued} {used} k = record {
    source = source;
    page_size = page_size;
    holds_pointer = holds_pointer;
    owns = Owns-perm (Perm.symm (used_first p free queued used)) owns;
    local = subst (λ h. Chain m.bytes (read_ptr m.bytes h) free) (sym local.0) local.2;
    queue = queue;
    free_pages = omega arith;
    pages_in_use = omega arith;
    allocations = omega arith;
  }
    where
      open k use {source, page_size, holds_pointer, owns, local, queue}

  -- After the swap the queue is the local list.
  swapped-IsPool :
      {queued used : List ℕ} {rest : List Block}
      → IsPool c pool m [] queued used rest
      → IsPool c (swap_queue pool) m queued [] used rest
  swapped-IsPool k = record {
    source = source;
    page_size = page_size;
    holds_pointer = holds_pointer;
    owns = owns;
    local = queue;
    queue = refl;
    free_pages = omega arith;
    pages_in_use = omega arith;
    allocations = omega arith;
  }
    where
      open k use {source, page_size, holds_pointer, owns, queue}

  charged-IsPool :
      {p : ℕ} {n : Memory} {used : List ℕ} {rest : List Block}
      → pool.shared.source.allocate m ≡ some (p, n)
      → IsPool c pool m [] [] used rest
      → IsPool c (counted (charged pool)) n [] [] (p ∷ used) rest × Allocated (page c.layout p) m n
  charged-IsPool {p} {n} {used} {rest} e k =
      let (even, new) =
        c.allocates m n p owns.sound
          (subst (λ src. PageSource.allocate src m ≡ some (p, n)) source e) in
      (
        record {
          source = source;
          page_size = page_size;
          holds_pointer = holds_pointer;
          owns = Owns-Allocated p even new owns;
          local = local;
          queue = queue;
          free_pages = omega arith;
          pages_in_use = omega arith;
          allocations = omega arith;
        },
        new,
      )
    where
      open k use {source, page_size, holds_pointer, owns, local, queue}

module _ {s : PageSource} (c : Contract s) (pool : PagePool) (m : Memory) where
  -- With a free page at hand `allocate_raw_page` takes the first of the local list, else of the
  -- return queue, without asking the source or writing memory; the invariant is kept.
  pub allocate_raw_page-reuse :
      (free queued used : List ℕ) (rest : List Block) (p : ℕ) (ps : List ℕ)
      → IsPool c pool m free queued used rest
      → free ++ queued ≡ p ∷ ps
      → (pool' : PagePool) × (allocate_raw_page pool m ≡ some (p, pool', m))
        × IsPool c pool' m (left_free free queued) (left_queued free queued) (p ∷ used) rest
  allocate_raw_page-reuse (q ∷ free) queued used rest p ps k e =
      let at : q ≡ p = cc in
      rw (← at) (
        _,
        raw_of_local pool m q _ (pop_local-some pool m q k.local.0 k.local.1),
        popped-IsPool c pool m k,
      )
  allocate_raw_page-reuse [] (q ∷ queued) used rest p ps k e =
      let at : q ≡ p = cc in
      rw (← at) (
        _,
        raw_of_queue pool m q _ (pop_local-none pool m k.local)
            (drain_some pool m q k.queue.0 k.queue.1),
        popped-IsPool c (swap_queue pool) m (swapped-IsPool c pool m k),
      )
  allocate_raw_page-reuse [] [] used rest p ps k e = cc

  -- With both lists empty a page that `allocate_raw_page` returns is one that the source has just
  -- allocated, cleared, and apart from all that is live; the invariant is kept.
  pub allocate_raw_page-fresh :
      (used : List ℕ) (rest : List Block) (p : ℕ) (pool' : PagePool) (n : Memory)
      → IsPool c pool m [] [] used rest
      → allocate_raw_page pool m ≡ some (p, pool', n)
      → IsPool c pool' n [] [] (p ∷ used) rest × Allocated (page c.layout p) m n
  allocate_raw_page-fresh used rest p pool' n k e =
      let (took, is) =
        raw_of_source pool m p pool' n (pop_local-none pool m k.local) (drain_none pool m k.queue)
          e in
      let (kept, new) = charged-IsPool c pool m took k in
      (subst (λ q. IsPool c q n [] [] (p ∷ used) rest) (sym is) kept, new)

  -- On every path: the source fails with no page at hand, or a page has moved to those in use.
  pub allocate_raw_page_cases :
      (free queued used : List ℕ) (rest : List Block)
      → IsPool c pool m free queued used rest
      → ((free ≡ []) × (queued ≡ []) × (allocate_raw_page pool m ≡ none) × (s.allocate m ≡ none))
        ⊎ ((p : ℕ) × (pool' : PagePool) × (n : Memory) × (allocate_raw_page pool m
              ≡ some (p, pool', n))
            × IsPool c pool' n (left_free free queued) (left_queued free queued) (p ∷ used) rest)
  allocate_raw_page_cases (p ∷ free) queued used rest k =
      let (pool', took, kept) = allocate_raw_page-reuse (p ∷ free) queued used rest p _ k refl in
      inr (p, pool', m, took, kept)
  allocate_raw_page_cases [] (p ∷ queued) used rest k =
      let (pool', took, kept) = allocate_raw_page-reuse [] (p ∷ queued) used rest p _ k refl in
      inr (p, pool', m, took, kept)
  allocate_raw_page_cases [] [] used rest k = elim (Option-cases (allocate_raw_page pool m)) [
    | inl e ↦ inl (
      refl,
      refl,
      e,
      subst (λ (o : PageSource). o.allocate m ≡ none) k.source (raw_refused pool m e),
    )
    | inr ((p, pool', n), e) ↦
        inr (p, pool', n, e, (allocate_raw_page-fresh used rest p pool' n k e).0)
  ]
