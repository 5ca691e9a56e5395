-- ===== src/Pool/Prewarm.antt =====
-- `PagePool::prewarm` (src/pool.rs), and a pool as it is created.
use mathlib.Core.List.{Perm, mem-append_left}
use mathlib.Core.List
use mathlib.Core.List.Perm
use paged_alloc.Base.{
  ℕ, zero, suc, ◌+◌, ◌≤◌, ◌≡◌, refl, sym, ap, ◌∙◌, subst, some, List, [], ◌∷◌, ◌++◌, arith, length,
  wrapping_add, inl, inr, leb_cases,
}
use paged_alloc.Memory.{ptr_size}
use paged_alloc.Memory.Region.{SameOutside}
use paged_alloc.Alloc.{Block, Memory}
use paged_alloc.Alloc.Sound.{IsSound}
use paged_alloc.Source.{PageSource, Contract, WritesIn}
use paged_alloc.Pool.{
  PoolShared, PagePool, >>=-eq_some, link, prewarm_loop, prewarm, with_source, new_pool, warmed,
}
use paged_alloc.Pool.Ownership.{Owns, Owns-write, Owns-Allocated, IsSound-write, page_live}
use paged_alloc.Pool.Chain.{Chain}
use paged_alloc.Pool.Links.{Chain-spared, Chain-link, write_ptr_within}
use paged_alloc.Pool.Invariant.{IsPool}
use paged_alloc.Pool.Linked.{Linked, linked}

module _ {s : PageSource} (c : Contract s) where
  -- One round: a page from the source, prefaulted, goes to the front of the local list.
  prewarm_step :
      (pool : PagePool) (m n : Memory) (p : ℕ) (free queued used : List ℕ) (rest : List Block)
      → Linked c pool m free queued used rest
      → s.allocate m ≡ some (p, n)
      → Linked c
          (record pool { local_head = p })
          (link (s.prefault p n) p pool.local_head)
          (p ∷ free)
          queued
          used
          rest
  prewarm_step pool m n p free queued used rest k e = record {
    source = source;
    holds_pointer = holds_pointer;
    owns = Owns-write (IsSound-write touched.live got.sound) touched.live got;
    local =
        Chain-link (s.prefault p n).bytes p pool.local_head free fits got
          (λ q h. mem-append_left _ h)
          (spared free pool.local_head (λ q h. mem-append_left _ h) local);
    queue =
        Chain-spared (s.prefault p n).bytes p pool.shared.return_head queued fits got among
          (write_ptr_within _ p pool.local_head fits)
          (spared queued pool.shared.return_head among queue);
  }
    where
      open k use {source, holds_pointer, owns, local, queue}

      fits : ptr_size ≤ c.layout.size
      fits = omega (arith, c.size)

      got : Owns c.layout n (p ∷ (free ++ (queued ++ used))) rest
      got = let (even, new) = c.allocates m n p owns.sound e in Owns-Allocated p even new owns

      same : SameOutside p c.layout.size m.bytes n.bytes
      same = let (even, new) = c.allocates m n p owns.sound e in new.same

      touched : WritesIn p s.page_size n (s.prefault p n)
      touched = c.prefaults n p (page_live p got List.mem-cons_self)

      among : (q : ℕ) → List.Mem q queued → List.Mem q (free ++ (queued ++ used))
      among q h = List.mem-append_right free (mem-append_left used h)

      spared :
          (ps : List ℕ) (head : ℕ)
          → ((q : ℕ) → List.Mem q ps → List.Mem q (free ++ (queued ++ used)))
          → Chain m.bytes head ps
          → Chain (s.prefault p n).bytes head ps
      spared ps head inside l =
          Chain-spared m.bytes p head ps fits got inside
            (λ q out. touched.same q (omega (arith, c.size)) ∙ same q out) l

  prewarm_pass :
      (pool : PagePool) (m : Memory) (r : ℕ × Memory) (free queued used : List ℕ)
      (rest : List Block)
      → Linked c pool m free queued used rest
      → pool.shared.source.allocate m ≡ some r
      → Linked c
          (record pool { local_head = r.0 })
          (link (pool.shared.source.prefault r.0 r.1) r.0 pool.local_head)
          (r.0 ∷ free)
          queued
          used
          rest
  prewarm_pass pool m r free queued used rest l =
      subst
        (λ src.
          PageSource.allocate src m ≡ some r
          → Linked c (record pool { local_head = r.0 })
              (link (PageSource.prefault src r.0 r.1) r.0 pool.local_head) (r.0 ∷ free) queued used
              rest)
        (sym l.source) (prewarm_step pool m r.1 r.0 free queued used rest l)

  prewarm_loop-Linked :
      (k : ℕ) (pool pool' : PagePool) (m n : Memory) (free queued used : List ℕ) (rest : List Block)
      → Linked c pool m free queued used rest
      → prewarm_loop k pool m ≡ some (pool', n)
      → (free' : List ℕ) × (length free' ≡ k + length free)
        × Linked c pool' n free' queued used rest
        × (pool'.shared ≡ pool.shared)
  unfolding prewarm_loop
  prewarm_loop-Linked zero pool pool' m n free queued used rest l e =
      let same : pool ≡ pool' = cc in
      let kept : m ≡ n = cc in
      (
        free,
        omega arith,
        subst (λ q. Linked c q n free queued used rest) same
            (subst (λ t. Linked c pool t free queued used rest) kept l),
        ap (λ (q : PagePool). q.shared) (sym same),
      )
  prewarm_loop-Linked (suc k) pool pool' m n free queued used rest l e =
      let (r, got, left) = >>=-eq_some (pool.shared.source.allocate m) _ e in
      let (free', size, kept, same) =
        prewarm_loop-Linked k (record pool { local_head = r.0 }) pool'
          (link (pool.shared.source.prefault r.0 r.1) r.0 pool.local_head) n (r.0 ∷ free) queued
          used rest (prewarm_pass pool m r free queued used rest l got) left in
      (free', omega (arith, size), kept, same)

  warmed-IsPool :
      (k : ℕ) (pool pool' : PagePool) (m n : Memory) {free free' queued used : List ℕ}
      {rest : List Block}
      → length free' ≡ k + length free
      → pool'.shared ≡ pool.shared
      → IsPool c pool m free queued used rest
      → Linked c pool' n free' queued used rest
      → IsPool c (warmed k pool') n free' queued used rest
  warmed-IsPool k pool pool' m n size same was now = record {
    source = source;
    page_size = ap (λ (t : PoolShared). t.page_size) same ∙ was.page_size;
    holds_pointer = holds_pointer;
    owns = owns;
    local = local;
    queue = queue;
    free_pages = omega (arith, was.free_pages, ap (λ (t : PoolShared). t.stats.free_pages) same);
    pages_in_use =
        omega (arith, was.pages_in_use, ap (λ (t : PoolShared). t.stats.pages_in_use) same);
    allocations =
        omega (arith, was.allocations, ap (λ (t : PoolShared). t.stats.allocations_from_heap) same);
  }
    where
      open now use {source, holds_pointer, owns, local, queue}

  -- After a `prewarm(k)` that returns there are k more free pages, the invariant is kept and the
  -- counter of prewarmed pages has grown by k.
  pub prewarm-IsPool :
      (k : ℕ) (pool pool' : PagePool) (m n : Memory) (free queued used : List ℕ) (rest : List Block)
      → IsPool c pool m free queued used rest
      → prewarm k pool m ≡ some (pool', n)
      → (free' : List ℕ) × (length free' ≡ k + length free)
        × IsPool c pool' n free' queued used rest
        × (pool'.shared.stats.prewarmed_pages ≡ wrapping_add pool.shared.stats.prewarmed_pages k)
  unfolding prewarm
  prewarm-IsPool k pool pool' m n free queued used rest l e =
      let (r, did, is) = >>=-eq_some (prewarm_loop k pool m) _ e in
      let (free', size, kept, same) =
        prewarm_loop-Linked k pool r.0 m r.1 free queued used rest (linked c pool m l) did in
      let at : (warmed k r.0, r.1) ≡ (pool', n) = cc in
      (
        free',
        size,
        subst (λ (t : PagePool × Memory). IsPool c t.0 t.1 free' queued used rest) at
            (warmed-IsPool k pool r.0 m r.1 size same l kept),
        ap (λ (t : PagePool × Memory). t.0.shared.stats.prewarmed_pages) (sym at)
            ∙ ap (λ (t : PoolShared). wrapping_add t.stats.prewarmed_pages k) same,
      )

  -- A new pool has no page, and its invariant holds in the memory that it found.
  pub with_source-IsPool :
      (m : Memory) (pool : PagePool)
      → IsSound m
      → with_source s ≡ some pool
      → IsPool c pool m [] [] [] m.live
  unfolding with_source
  with_source-IsPool m pool sound e = elim (leb_cases ptr_size s.page_size) [
    | inl (fits, room) ↦
        subst (λ q. IsPool c q m [] [] [] m.live)
          (let same : new_pool s ≡ pool = ground arith in same) (empty room)
    | inr (small, _) ↦ absurd (ground arith)
  ]
    where
      empty : ptr_size ≤ s.page_size → IsPool c (new_pool s) m [] [] [] m.live
      empty room = record {
        source = refl;
        page_size = refl;
        holds_pointer = room;
        owns = record {
          sound = sound;
          blocks = Perm.refl m.live;
          aligned = λ p h. absurd (List.not-mem-nil h);
        };
        local = refl;
        queue = refl;
        free_pages = refl;
        pages_in_use = refl;
        allocations = refl;
      }
