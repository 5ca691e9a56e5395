-- ===== src/Pool/Shutdown.antt =====
-- The destructors of src/pool.rs, and the count of the local list.
use mathlib.Core.List.{mem-cons_self}
use paged_alloc.Base.{
  ℕ, zero, suc, ◌+◌, ◌<◌, ◌≡◌, ◌≢◌, refl, sym, ap, ◌∙◌, subst, some, List, [], ◌∷◌, ◌++◌, arith,
  length, ne→==,
}
use paged_alloc.Memory.{read_ptr}
use paged_alloc.Alloc.{Block, Memory}
use paged_alloc.Source.{PageSource, Contract}
use paged_alloc.Pool.{PoolShared, PagePool, release_from, drop_pool, drop_shared, count_from}
use paged_alloc.Pool.Ownership.{Owns, Owns-Released, page_live}
use paged_alloc.Pool.Chain.{Chain}
use paged_alloc.Pool.Invariant.{IsPool}

-- One round of the loop on a list that is not empty.
release_from-suc :
    (fuel : ℕ) (s : PageSource) (p : ℕ) (m n : Memory)
    → p ≢ 0
    → s.release p m ≡ some n
    → release_from (suc fuel) s p m ≡ release_from fuel s (read_ptr m.bytes p) n
unfolding release_from
release_from-suc fuel s p m n ne e = rw (ne→== p 0 ne, e)

module _ {s : PageSource} (c : Contract s) where
  -- With fuel for every page of the list, each is released once and nothing else is.
  pub release_from-Chain :
      (fuel head : ℕ) (ps others : List ℕ) (rest : List Block) (m : Memory)
      → Owns c.layout m (ps ++ others) rest
      → Chain m.bytes head ps
      → length ps < fuel
      → (n : Memory) × (release_from fuel s head m ≡ some n)
        × (n.bytes ≡ m.bytes)
        × Owns c.layout n others rest
  unfolding release_from
  release_from-Chain zero head ps others rest m o l fuel = elim fuel [ ]
  release_from-Chain (suc k) head [] others rest m o l fuel = (m, rw l, refl, o)
  release_from-Chain (suc k) head (p ∷ ps) others rest m o (at, ne, l) fuel =
      let (n, did, gone) = c.releases m p (page_live p o mem-cons_self) in
      let (last, rest_done, same, left) =
        release_from-Chain k (read_ptr m.bytes p) ps others rest n (Owns-Released p gone o)
          (subst (λ b. Chain b (read_ptr m.bytes p) ps) (sym gone.bytes) l) (omega arith) in
      (
        last,
        ap (λ (t : ℕ). release_from (suc k) s t m) at
            ∙ release_from-suc k s p m n ne did
            ∙ rest_done,
        same ∙ gone.bytes,
        left,
      )

  -- With fuel for the local list, `Drop for PagePool` ends and frees exactly the local list: what
  -- is live after it are the queued pages, those in use and the other blocks, and the return queue
  -- is intact.
  pub drop_pool-Owns :
      (fuel : ℕ) (pool : PagePool) (m : Memory) (free queued used : List ℕ) (rest : List Block)
      → IsPool c pool m free queued used rest
      → length free < fuel
      → (n : Memory) × (drop_pool fuel pool m ≡ some (record pool { local_head = 0 }, n))
        × Owns c.layout n (queued ++ used) rest
        × Chain n.bytes pool.shared.return_head queued
  unfolding drop_pool
  drop_pool-Owns fuel pool m free queued used rest k enough =
      let (n, did, same, left) =
        release_from-Chain fuel pool.local_head free (queued ++ used) rest m k.owns k.local
          enough in
      (
        n,
        rw (k.source, did),
        left,
        subst (λ b. Chain b pool.shared.return_head queued) (sym same) k.queue,
      )

  -- With fuel for the return queue, `Drop for PoolShared` ends and frees exactly the return queue.
  pub drop_shared-Owns :
      (fuel : ℕ) (shared : PoolShared) (m : Memory) (queued used : List ℕ) (rest : List Block)
      → shared.source ≡ s
      → Owns c.layout m (queued ++ used) rest
      → Chain m.bytes shared.return_head queued
      → length queued < fuel
      → (n : Memory) × (drop_shared fuel shared m ≡ some (record shared { return_head = 0 }, n))
        × Owns c.layout n used rest
  unfolding drop_shared
  drop_shared-Owns fuel shared m queued used rest e o l enough =
      let (n, did, same, left) =
        release_from-Chain fuel shared.return_head queued used rest m o l enough in
      (n, rw (e, did), left)

-- With fuel for the list, the loop of `local_free_pages` ends and has counted the whole list.
count_from-Chain :
    (fuel head count : ℕ) (ps : List ℕ) (m : Memory)
    → Chain m.bytes head ps
    → length ps < fuel
    → count_from fuel head m count ≡ some (count + length ps)
unfolding count_from
count_from-Chain zero head count ps m l fuel = elim fuel [ ]
count_from-Chain (suc k) head count [] m l fuel = rw l (ap some (omega arith))
count_from-Chain (suc k) head count (p ∷ ps) m (at, ne, l) fuel =
    rw (at, ne→== p 0 ne)
      (count_from-Chain k (read_ptr m.bytes p) (count + 1) ps m l (omega arith)
        ∙ ap some (omega arith))
