-- ===== src/Pool.antt =====
-- src/pool.rs: `PagePool` over its intrusive free lists, and `PoolShared` with its return queue.
-- The shared part is a field, though the program reaches it through an `Arc` from other threads
-- too: these functions are the effect of each call when it runs without interruption.
pub mod Ownership
pub mod Chain
pub mod Invariant
pub mod Acquire
pub mod Reuse
pub mod Shutdown
pub mod Write
pub mod Rest
pub mod Links
pub mod Return
pub mod Linked
pub mod Advise
pub mod Create
pub mod Prewarm
pub mod Ready
use paged_alloc.Base.{
  ◌≡◌, refl, ℕ, zero, suc, ◌+◌, Option, none, some, leb, ◌==◌, if◌then◌else◌, wrapping_add,
  wrapping_sub,
}
use paged_alloc.Memory.{ptr_size, read_ptr, write_ptr}
use paged_alloc.Alloc.{Memory}
use paged_alloc.Source.{PageSource}

pub record PoolStats : Type 0 where
  pub allocations_from_heap : ℕ
  pub pages_in_use : ℕ
  pub free_pages : ℕ
  pub return_queue_drains : ℕ
  pub prewarmed_pages : ℕ

abbrev pub no_stats : PoolStats
no_stats = record {
  allocations_from_heap = 0;
  pages_in_use = 0;
  free_pages = 0;
  return_queue_drains = 0;
  prewarmed_pages = 0;
}

pub record PoolShared : Type 0 where
  pub page_size : ℕ
  pub source : PageSource
  pub return_head : ℕ
  pub stats : PoolStats

pub record PagePool : Type 0 where
  pub shared : PoolShared
  pub local_head : ℕ

infixl 5 ◌>>=◌
abbrev pub ◌>>=◌ : {A B : Type 0} → Option A → (A → Option B) → Option B
none >>= f = none
some a >>= f = f a

-- A chain that succeeds has succeeded at each step.
pub >>=-eq_some :
    {A B : Type 0} (o : Option A) (f : A → Option B) {b : B}
    → (o >>= f) ≡ some b
    → (a : A) × (o ≡ some a) × (f a ≡ some b)
>>=-eq_some none f e = cc
>>=-eq_some (some a) f e = (a, refl, e)

-- The memory after a pointer is written into the first bytes of a buffer.
abbrev pub link : Memory → ℕ → ℕ → Memory
link m p next = record m { bytes = write_ptr m.bytes p next }

-- The pool that `PagePool::with_source` builds.
abbrev pub new_pool : PageSource → PagePool
new_pool source = record {
  shared = record {
    page_size = source.page_size;
    source = source;
    return_head = 0;
    stats = no_stats;
  };
  local_head = 0;
}

-- `PagePool::with_source`: `none` is the failed assertion.
unfoldable pub with_source : PageSource → Option PagePool
with_source source = if leb ptr_size source.page_size then some (new_pool source) else none

-- `PoolShared::push_return`: the pass of its loop in which the exchange succeeds.
unfoldable pub push_return : PoolShared → Memory → ℕ → PoolShared × Memory
push_return s m p = (
  record s {
    return_head = p;
    stats = record s.stats {
      pages_in_use = wrapping_sub s.stats.pages_in_use 1;
      free_pages = wrapping_add s.stats.free_pages 1;
    };
  },
  link m p s.return_head,
)

abbrev pub with_stats : PagePool → PoolStats → PagePool
with_stats pool stats = record pool { shared = record pool.shared { stats = stats } }

-- The assignments of `PagePool::pop_local`.
abbrev pub popped : PagePool → Memory → PagePool
popped pool m = record {
  local_head = read_ptr m.bytes pool.local_head;
  shared = record pool.shared {
    stats = record pool.shared.stats { free_pages = wrapping_sub pool.shared.stats.free_pages 1 };
  };
}

-- `PagePool::pop_local`; the memory is only read.
unfoldable pub pop_local : PagePool → Memory → Option (ℕ × PagePool)
pop_local pool m = if pool.local_head == 0 then none else some (pool.local_head, popped pool m)

-- The swap in `PagePool::drain_return_queue`: what the return queue held becomes the local list.
abbrev pub swap_queue : PagePool → PagePool
swap_queue pool = record {
  local_head = pool.shared.return_head;
  shared = record pool.shared {
    return_head = 0;
    stats = record pool.shared.stats {
      return_queue_drains = wrapping_add pool.shared.stats.return_queue_drains 1;
    };
  };
}

-- `PagePool::drain_return_queue`.
unfoldable pub drain_return_queue : PagePool → Memory → Option (ℕ × PagePool)
drain_return_queue pool m =
    if pool.shared.return_head == 0 then none else pop_local (swap_queue pool) m

-- `PagePool::allocate_fresh`.
abbrev pub charged : PagePool → PagePool
charged pool = with_stats pool (record pool.shared.stats {
  allocations_from_heap = wrapping_add pool.shared.stats.allocations_from_heap 1;
})

unfoldable pub allocate_fresh : PagePool → Memory → Option (ℕ × PagePool × Memory)
allocate_fresh pool m = do (p, n) ← pool.shared.source.allocate m; some (p, charged pool, n)

-- The chain of `or_else` and `unwrap_or_else` in `PagePool::allocate_raw_page`.
unfoldable pub find_page : PagePool → Memory → Option (ℕ × PagePool × Memory)
find_page pool m = elim (pop_local pool m) [
  | some (p, pool') ↦ some (p, pool', m)
  | none ↦ elim (drain_return_queue pool m) [
    | some (p, pool') ↦ some (p, pool', m)
    | none ↦ allocate_fresh pool m
  ]
]

-- The count of `PagePool::allocate_raw_page`.
abbrev pub counted : PagePool → PagePool
counted pool =
    with_stats pool
      (record pool.shared.stats { pages_in_use = wrapping_add pool.shared.stats.pages_in_use 1 })

-- `PagePool::allocate_raw_page`.
unfoldable pub allocate_raw_page : PagePool → Memory → Option (ℕ × PagePool × Memory)
allocate_raw_page pool m = do (p, pool', n) ← find_page pool m; some (p, counted pool', n)

-- The loop of `PagePool::prewarm`.
unfoldable pub prewarm_loop : ℕ → PagePool → Memory → Option (PagePool × Memory)
prewarm_loop zero pool m = some (pool, m)
prewarm_loop (suc k) pool m = do
  (p, n) ← pool.shared.source.allocate m
  prewarm_loop k (record pool { local_head = p })
      (link (pool.shared.source.prefault p n) p pool.local_head)

-- Where that loop stands when the source fails: the pages of the earlier passes are on the list.
unfoldable pub prewarm_so_far : ℕ → PagePool → Memory → PagePool × Memory
prewarm_so_far zero pool m = (pool, m)
prewarm_so_far (suc k) pool m = elim (pool.shared.source.allocate m) [
  | none ↦ (pool, m)
  | some (p, n) ↦
      prewarm_so_far k (record pool { local_head = p })
        (link (pool.shared.source.prefault p n) p pool.local_head)
]

-- The counters that `PagePool::prewarm` advances after its loop.
abbrev pub warmed : ℕ → PagePool → PagePool
warmed k pool = with_stats pool (record pool.shared.stats {
  allocations_from_heap = wrapping_add pool.shared.stats.allocations_from_heap k;
  free_pages = wrapping_add pool.shared.stats.free_pages k;
  prewarmed_pages = wrapping_add pool.shared.stats.prewarmed_pages k;
})

-- `PagePool::prewarm`.
unfoldable pub prewarm : ℕ → PagePool → Memory → Option (PagePool × Memory)
prewarm k pool m = do (pool', n) ← prewarm_loop k pool m; some (warmed k pool', n)

-- The loop of `PagePool::local_free_pages`; `none` when the fuel runs out.
unfoldable pub count_from : ℕ → ℕ → Memory → ℕ → Option ℕ
count_from zero head m count = none
count_from (suc fuel) head m count =
    let rest = count_from fuel (read_ptr m.bytes head) m (count + 1) in
    if head == 0 then some count else rest

unfoldable pub local_free_pages : ℕ → PagePool → Memory → Option ℕ
local_free_pages fuel pool m = count_from fuel pool.local_head m 0

-- The loop that both destructors run: read the next pointer, then release the buffer. `none` when
-- the fuel runs out or a release is undefined.
unfoldable pub release_from : ℕ → PageSource → ℕ → Memory → Option Memory
release_from zero source head m = none
release_from (suc fuel) source head m =
    let rest = (do n ← source.release head m; release_from fuel source (read_ptr m.bytes head) n) in
    if head == 0 then some m else rest

-- `Drop for PagePool`.
unfoldable pub drop_pool : ℕ → PagePool → Memory → Option (PagePool × Memory)
drop_pool fuel pool m = do
  n ← release_from fuel pool.shared.source pool.local_head m
  some (record pool { local_head = 0 }, n)

-- `Drop for PoolShared`.
unfoldable pub drop_shared : ℕ → PoolShared → Memory → Option (PoolShared × Memory)
drop_shared fuel shared m = do
  n ← release_from fuel shared.source shared.return_head m
  some (record shared { return_head = 0 }, n)
