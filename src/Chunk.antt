-- ===== src/Chunk.antt =====
-- src/chunk.rs: the data of `ChunkPool`, and the reference counts of its buffers.
pub mod Align
pub mod Dispatch
pub mod Builder
pub mod Allocate
pub mod Fit
pub mod Arcs
pub mod Invariant
pub mod Carved
pub mod Pages
pub mod Drop
pub mod Acquire
pub mod Holds
pub mod Claim
pub mod Failure
pub mod Packed
pub mod Paths
pub mod Grant
pub mod Oversized
pub mod Lifetime
pub mod Isolated
pub mod Written
pub mod Append
pub mod Copied
pub mod Teardown
pub mod Create
pub mod Books
pub mod Ledger
pub mod Kept
pub mod Spared
pub mod Others
pub mod Classes
pub mod Beside
pub mod Closure
pub mod Finish
pub mod Outcomes
pub mod Filled
pub mod Sized
use Prim.Native.Nat.{bit_and}
use paged_alloc.Base.{
  ℕ, suc, ◌+◌, ◌-◌, ◌/◌, Bool, true, false, Option, none, some, List, [], ◌∷◌, ◌==◌, if◌then◌else◌,
  word, wrapping_add, wrapping_sub,
}
use paged_alloc.Memory.{ptr_size}
use paged_alloc.Alloc.{Layout, Memory, dealloc}
use paged_alloc.Tenant.{Tenants, on, record_chunk_allocate, record_chunk_release}
use paged_alloc.Pool.{PagePool, push_return}

pub record ChunkFull : Type 0 where
  pub capacity : ℕ
  pub len : ℕ
  pub attempted : ℕ

-- Where a buffer goes when its last reference drops. The pool is that of the state.
pub data Release : Type 0 where
  to_pool : Release
  to_heap : Layout → Release

pub record PackedPage : Type 0 where
  pub buf : ℕ
  pub release : Release

-- One `Arc<PackedPage>`: its number, its strong count, and what it points to.
pub record ArcPage : Type 0 where
  pub id : ℕ
  pub refs : ℕ
  pub page : PackedPage

pub record OpenPage : Type 0 where
  pub shared : ℕ
  pub write_offset : ℕ

pub record ChunkPoolStats : Type 0 where
  pub total_chunks : ℕ
  pub chunks_in_use : ℕ
  pub packed_allocations : ℕ
  pub dedicated_allocations : ℕ
  pub oversized_allocations : ℕ
  pub oversized_bytes_in_use : ℕ

pub record ChunkPool : Type 0 where
  pub pages : PagePool
  pub current : Option OpenPage
  pub threshold : ℕ
  pub stats : ChunkPoolStats

-- `arcs` holds the live `Arc<PackedPage>`s. `faulted` records undefined behaviour: a release of what
-- is not live.
pub record State : Type 0 where
  pub pool : ChunkPool
  pub mem : Memory
  pub tenants : Tenants
  pub arcs : List ArcPage
  pub next_arc : ℕ
  pub faulted : Bool

-- `ChunkPool::from_pool`.
abbrev pub from_pool : PagePool → ChunkPool
from_pool pages = record {
  pages = pages;
  current = none;
  threshold = pages.shared.page_size / 2;
  stats = record {
    total_chunks = 0;
    chunks_in_use = 0;
    packed_allocations = 0;
    dedicated_allocations = 0;
    oversized_allocations = 0;
    oversized_bytes_in_use = 0;
  };
}

abbrev pub page_size : State → ℕ
page_size w = w.pool.pages.shared.page_size

-- `ChunkPool::DEFAULT_ALIGN`, the alignment of a pointer.
abbrev pub default_align : ℕ
default_align = ptr_size

-- `align_up`, on 64-bit words: `(value + align - 1) & !(align - 1)`.
unfoldable pub align_up : ℕ → ℕ → ℕ
align_up value align =
    bit_and (wrapping_sub (wrapping_add value align) 1) (word - 1 - wrapping_sub align 1)

unfoldable pub find_arc : ℕ → List ArcPage → Option ArcPage
find_arc id [] = none
find_arc id (a ∷ arcs) = if a.id == id then some a else find_arc id arcs

-- Another strong count for one `Arc`.
unfoldable pub set_refs : ℕ → ℕ → List ArcPage → List ArcPage
set_refs id n [] = []
set_refs id n (a ∷ arcs) =
    if a.id == id then record a { refs = n } ∷ arcs else a ∷ set_refs id n arcs

unfoldable pub remove_arc : ℕ → List ArcPage → List ArcPage
remove_arc id [] = []
remove_arc id (a ∷ arcs) = if a.id == id then arcs else a ∷ remove_arc id arcs

-- `Arc::new`.
unfoldable pub new_arc : PackedPage → State → ℕ × State
new_arc page w = (
  w.next_arc,
  record w {
    arcs = record { id = w.next_arc; refs = 1; page = page } ∷ w.arcs;
    next_arc = suc w.next_arc;
  },
)

-- `Arc::clone`.
unfoldable pub clone_arc : ℕ → State → State
unfolding find_arc set_refs
clone_arc id w = elim (find_arc id w.arcs) [
  | none ↦ w
  | some a ↦ record w { arcs = set_refs id (suc a.refs) w.arcs }
]

-- `Drop for PackedPage`.
unfoldable pub drop_packed : PackedPage → State → State
drop_packed page w = elim page.release [
  | to_pool ↦
      let (shared, m) = push_return w.pool.pages.shared w.mem page.buf in
      record w { pool = record w.pool { pages = record w.pool.pages { shared = shared } }; mem = m }
  | to_heap layout ↦ elim (dealloc page.buf layout w.mem) [
    | none ↦ record w { faulted = true }
    | some m ↦ record w { mem = m }
  ]
]

-- Dropping one `Arc`: the last one drops the `PackedPage`.
unfoldable pub drop_arc : ℕ → State → State
unfolding find_arc set_refs remove_arc
drop_arc id w = elim (find_arc id w.arcs) [
  | none ↦ record w { faulted = true }
  | some a ↦
      if a.refs == 1
      then drop_packed a.page (record w { arcs = remove_arc id w.arcs })
      else record w { arcs = set_refs id (a.refs - 1) w.arcs }
]

-- `Option<Arc<PackedPage>>` going out of scope, and its clone.
abbrev pub drop_option : Option ℕ → State → State
drop_option none w = w
drop_option (some id) w = drop_arc id w

abbrev pub clone_option : Option ℕ → State → State
clone_option none w = w
clone_option (some id) w = clone_arc id w

abbrev pub with_stats : State → ChunkPoolStats → State
with_stats w stats = record w { pool = record w.pool { stats = stats } }

-- What every path records for a chunk of `size` bytes.
unfoldable pub charge : ℕ → ℕ → State → State
charge t size w =
    record (with_stats w (record w.pool.stats {
      total_chunks = wrapping_add w.pool.stats.total_chunks 1;
      chunks_in_use = wrapping_add w.pool.stats.chunks_in_use 1;
    })) { tenants = on w.tenants t (λ u. record_chunk_allocate u size) }

-- What both destructors record for a chunk.
unfoldable pub refund : ℕ → ℕ → ℕ → State → State
refund t capacity oversized w =
    record (with_stats w (record w.pool.stats {
      chunks_in_use = wrapping_sub w.pool.stats.chunks_in_use 1;
      oversized_bytes_in_use =
          if oversized == 0
          then w.pool.stats.oversized_bytes_in_use
          else wrapping_sub w.pool.stats.oversized_bytes_in_use oversized;
    })) { tenants = on w.tenants t (λ u. record_chunk_release u capacity) }
