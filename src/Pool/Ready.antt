-- ===== src/Pool/Ready.antt =====
-- `PagePool::prewarm` (src/pool.rs) as a whole, where the source fails and where it does not.
use paged_alloc.Base.{
  ℕ, zero, suc, ◌+◌, ◌<◌, ◌≡◌, refl, ◌⊎◌, inl, inr, Option-cases, none, some, List, arith, length,
  wrapping_add,
}
use paged_alloc.Alloc.{Block, Memory}
use paged_alloc.Source.{PageSource, Contract}
use paged_alloc.Pool.{PagePool, prewarm_loop, prewarm_so_far, prewarm, warmed, link}
use paged_alloc.Pool.Invariant.{IsPool}
use paged_alloc.Pool.Prewarm.{prewarm-IsPool}

-- The loop stops at its pass `j`, where the source fails.
pub record Stopped (k : ℕ) (pool : PagePool) (m : Memory) : Type 0 where
  pub passes : ℕ
  pub early : passes < k
  pub pool' : PagePool
  pub mem : Memory
  pub so_far : prewarm_loop passes pool m ≡ some (pool', mem)
  pub left : prewarm_so_far k pool m ≡ (pool', mem)
  pub failed : pool'.shared.source.allocate mem ≡ none

loop_cases :
    (k : ℕ) (pool : PagePool) (m : Memory)
    → ((prewarm_loop k pool m ≡ none) × Stopped k pool m)
      ⊎ ((r : PagePool × Memory) × (prewarm_loop k pool m ≡ some r))
unfolding prewarm_loop prewarm_so_far
loop_cases zero pool m = inr ((pool, m), refl)
loop_cases (suc k) pool m = elim (Option-cases (pool.shared.source.allocate m)) [
  | inl e ↦ inl (
    rw (e, prewarm_loop) refl,
    record {
      passes = 0;
      early = omega arith;
      pool' = pool;
      mem = m;
      so_far = refl;
      left = rw (e, prewarm_so_far) refl;
      failed = e;
    },
  )
  | inr (r, e) ↦
      elim (loop_cases k (record pool { local_head = r.0 })
        (link (pool.shared.source.prefault r.0 r.1) r.0 pool.local_head)) [
          | inl (stops, why) ↦ inl (
            rw (e, prewarm_loop) stops,
            record {
              passes = suc why.passes;
              early = omega (arith, why.early);
              pool' = why.pool';
              mem = why.mem;
              so_far = rw (e, prewarm_loop) (why.so_far);
              left = rw (e, prewarm_so_far) (why.left);
              failed = why.failed;
            },
          )
          | inr (done, is) ↦ inr (done, rw (e, prewarm_loop) is)
        ]
]

module _ {s : PageSource} (c : Contract s) where
  -- `prewarm(k)` either stops at one of its passes, where the source fails, or returns with k more
  -- free pages; then the invariant is kept and the counter of prewarmed pages has grown by k.
  pub prewarm_cases :
      (k : ℕ) (pool : PagePool) (m : Memory) (free queued used : List ℕ) (rest : List Block)
      → IsPool c pool m free queued used rest
      → ((prewarm k pool m ≡ none) × Stopped k pool m)
        ⊎ ((pool' : PagePool) × (n : Memory) × (prewarm k pool m ≡ some (pool', n))
            × (free' : List ℕ) × (length free' ≡ k + length free)
            × IsPool c pool' n free' queued used rest
            × (pool'.shared.stats.prewarmed_pages
                ≡ wrapping_add pool.shared.stats.prewarmed_pages k))
  unfolding prewarm
  prewarm_cases k pool m free queued used rest l = elim (loop_cases k pool m) [
    | inl (stops, why) ↦ inl (rw (stops, prewarm) refl, why)
    | inr (r, did) ↦
        let all : prewarm k pool m ≡ some (warmed k r.0, r.1) = rw (did, prewarm) refl in
        let (free', size, kept, total) =
          prewarm-IsPool c k pool (warmed k r.0) m r.1 free queued used rest l all in
        inr (warmed k r.0, r.1, all, free', size, kept, total)
  ]
