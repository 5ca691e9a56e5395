-- ===== src/Queue.antt =====
-- src/pool.rs with other threads at work: the compare-and-swap loop of `push_return`, one access to
-- shared memory at a time, interleaved in any order with the owner's `allocate_raw_page` and with
-- writes to the pages in use.
pub mod Pushes
pub mod Bag
pub mod Invariant
pub mod Calls
pub mod Pushing
pub mod Owned
pub mod Runs
pub mod Quiet
pub mod Alone
pub mod Progress
use paged_alloc.Base.{ℕ, ◌≡◌, ◌≢◌, some, List, [], ◌∷◌, ◌++◌, wrapping_add, wrapping_sub}
use paged_alloc.Memory.Region.{SameOutside}
use paged_alloc.Alloc.{Memory}
use paged_alloc.Pool.{PagePool, PoolStats, link, popped, swap_queue, charged, counted, with_stats}

-- Where a call of `push_return` stands, with the local variables that are live there.
pub data Phase : Type 0 where
  load : Phase  -- the head of the loop
  linking : (head : ℕ) → Phase  -- before the write of the next pointer
  swapping : (head : ℕ) → Phase  -- before the compare-exchange
  uncounting : Phase  -- before `pages_in_use.fetch_sub`
  counting : Phase  -- before `free_pages.fetch_add`

-- One call of `push_return`, for the page that it was given.
pub record Push : Type 0 where
  pub page : ℕ
  pub phase : Phase

-- Where the owner stands in `allocate_raw_page`.
pub data Owner : Type 0 where
  idle : Owner
  asking : Owner  -- both lists were empty: before `allocate_fresh`
  found : (p : ℕ) → Owner  -- before `pages_in_use.fetch_add`

-- `held` are the pages behind builders, pages and chunks.
pub record System : Type 0 where
  pub pool : PagePool
  pub mem : Memory
  pub owner : Owner
  pub pushes : List Push
  pub held : List ℕ

-- The head of the return queue set by a compare-exchange.
abbrev pub with_head : PagePool → ℕ → PagePool
with_head pool p = record pool { shared = record pool.shared { return_head = p } }

abbrev pub uncounted : PagePool → PagePool
uncounted pool =
    with_stats pool
      (record pool.shared.stats { pages_in_use = wrapping_sub pool.shared.stats.pages_in_use 1 })

abbrev pub freed : PagePool → PagePool
freed pool =
    with_stats pool
      (record pool.shared.stats { free_pages = wrapping_add pool.shared.stats.free_pages 1 })

-- One access of a call of `push_return`: what becomes of the pool, of memory and of the call, which is
-- gone once it has returned. A weak compare-exchange may fail at any time.
pub data Access (pool : PagePool) (m : Memory) (p : ℕ)
    : Phase → PagePool → Memory → List Push → Type 0 where
  read_head :
      Access pool m p load pool m
        (record { page = p; phase = linking pool.shared.return_head } ∷ [])
  write_next :
      {head : ℕ}
      → Access pool m p
          (linking head)
          pool
          (link m p head)
          (record { page = p; phase = swapping head } ∷ [])
  exchange :
      {head : ℕ}
      → pool.shared.return_head ≡ head
      → Access pool m p
          (swapping head)
          (with_head pool p)
          m
          (record { page = p; phase = uncounting } ∷ [])
  retry :
      {head : ℕ} → Access pool m p (swapping head) pool m (record { page = p; phase = load } ∷ [])
  uncount :
      Access pool m p uncounting (uncounted pool) m (record { page = p; phase = counting } ∷ [])
  count_free : Access pool m p counting (freed pool) m []

-- One access of the owner in `allocate_raw_page`. `return_head.swap` either finds the queue empty, or
-- makes it the local list.
pub data OwnerAccess (pool : PagePool) (m : Memory)
    : Owner → PagePool → Memory → Owner → Type 0 where
  pop : pool.local_head ≢ 0 → OwnerAccess pool m idle (popped pool m) m (found pool.local_head)
  drain :
      pool.local_head ≡ 0
      → pool.shared.return_head ≢ 0
      → OwnerAccess pool m idle (swap_queue pool) m idle
  drain_empty :
      pool.local_head ≡ 0 → pool.shared.return_head ≡ 0 → OwnerAccess pool m idle pool m asking
  fresh :
      {p : ℕ} {n : Memory}
      → pool.shared.source.allocate m ≡ some (p, n)
      → OwnerAccess pool m asking (charged pool) n (found p)

-- One step of the whole: somebody gives a page back, a call of `push_return` goes on, the owner goes
-- on, the owner hands its page out, or somebody writes to a page.
pub data Step (w : System) : System → Type 0 where
  give_back :
      (xs ys : List ℕ) (p : ℕ)
      → w.held ≡ xs ++ (p ∷ ys)
      → Step w (record w { held = xs ++ ys; pushes = record { page = p; phase = load } ∷ w.pushes })
  push_on :
      (fs gs : List Push) (p : ℕ) (phase : Phase) {pool : PagePool} {m : Memory} {next : List Push}
      → w.pushes ≡ fs ++ (record { page = p; phase = phase } ∷ gs)
      → Access w.pool w.mem p phase pool m next
      → Step w (record w { pool = pool; mem = m; pushes = fs ++ (next ++ gs) })
  owner_on :
      {pool : PagePool} {m : Memory} {owner : Owner}
      → OwnerAccess w.pool w.mem w.owner pool m owner
      → Step w (record w { pool = pool; mem = m; owner = owner })
  hand_out :
      (p : ℕ)
      → w.owner ≡ found p
      → Step w (record w { pool = counted w.pool; owner = idle; held = p ∷ w.held })
  write :
      (xs ys : List ℕ) (p : ℕ) (n : Memory)
      → w.held ≡ xs ++ (p ∷ ys)
      → SameOutside p w.pool.shared.page_size w.mem.bytes n.bytes
      → n.live ≡ w.mem.live
      → Step w (record w { mem = n })

pub data Steps (w : System) : System → Type 0 where
  here : Steps w w
  later : {u v : System} → Steps w u → Step u v → Steps w v

-- Nobody is in the middle of a call.
abbrev pub at_rest : PagePool → Memory → List ℕ → System
at_rest pool m held = record { pool = pool; mem = m; owner = idle; pushes = []; held = held }
