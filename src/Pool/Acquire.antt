-- ===== src/Pool/Acquire.antt =====
-- `PagePool::allocate_raw_page` (src/pool.rs): the local list, then the return queue, then the source.
use paged_alloc.Base.{ℕ, ◌≡◌, ◌≢◌, sym, ap, subst, none, some, arith, ne→==}
use paged_alloc.Alloc.{Memory}
use paged_alloc.Pool.{
  PagePool, pop_local, popped, swap_queue, drain_return_queue, allocate_fresh, charged, find_page,
  counted, allocate_raw_page,
}

pub pop_local-some :
    (pool : PagePool) (m : Memory) (p : ℕ)
    → pool.local_head ≡ p
    → p ≢ 0
    → pop_local pool m ≡ some (p, popped pool m)
unfolding pop_local
pop_local-some pool m p e ne =
    rw (ne→== pool.local_head 0 (subst (λ (t : ℕ). t ≢ 0) (sym e) ne))
      (ap (λ (t : ℕ). some (t, popped pool m)) e)

pub pop_local-none : (pool : PagePool) (m : Memory) → pool.local_head ≡ 0 → pop_local pool m ≡ none
unfolding pop_local
pop_local-none pool m e = ground arith

module _ (pool : PagePool) (m : Memory) where
  -- The pass of the chain that finds a page.
  pub raw_of_local :
      (p : ℕ) (pool' : PagePool)
      → pop_local pool m ≡ some (p, pool')
      → allocate_raw_page pool m ≡ some (p, counted pool', m)
  unfolding allocate_raw_page find_page
  raw_of_local p pool' e = rw (e, find_page)

  pub raw_of_queue :
      (p : ℕ) (pool' : PagePool)
      → pop_local pool m ≡ none
      → drain_return_queue pool m ≡ some (p, pool')
      → allocate_raw_page pool m ≡ some (p, counted pool', m)
  unfolding allocate_raw_page find_page
  raw_of_queue p pool' e f = rw (e, f, find_page)

  pub drain_some :
      (p : ℕ)
      → pool.shared.return_head ≡ p
      → p ≢ 0
      → drain_return_queue pool m ≡ some (p, popped (swap_queue pool) m)
  unfolding drain_return_queue
  drain_some p e ne =
      rw (ne→== pool.shared.return_head 0 (subst (λ (t : ℕ). t ≢ 0) (sym e) ne))
        (pop_local-some (swap_queue pool) m p e ne)

  pub drain_none : pool.shared.return_head ≡ 0 → drain_return_queue pool m ≡ none
  unfolding drain_return_queue
  drain_none e = ground arith

  -- With both lists empty the source decides.
  pub raw_of_source :
      (p : ℕ) (pool' : PagePool) (n : Memory)
      → pop_local pool m ≡ none
      → drain_return_queue pool m ≡ none
      → allocate_raw_page pool m ≡ some (p, pool', n)
      → (pool.shared.source.allocate m ≡ some (p, n)) × (pool' ≡ counted (charged pool))
  unfolding allocate_raw_page find_page allocate_fresh
  raw_of_source p pool' n e f g = ground arith

  -- It fails only where the source does.
  pub raw_refused : allocate_raw_page pool m ≡ none → pool.shared.source.allocate m ≡ none
  unfolding allocate_raw_page find_page allocate_fresh
  raw_refused e = ground arith
