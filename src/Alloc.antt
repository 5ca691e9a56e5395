-- ===== src/Alloc.antt =====
-- `std::alloc` as the crate uses it: layouts, live blocks, `alloc_zeroed` and `dealloc`. Where the
-- allocator places a block is its own choice, the parameter `place`; 0 is a failed allocation.
pub mod Sound
pub mod Zeroed
pub mod Bump
use mathlib.Core.List.{erase, dec_mem}
use mathlib.Core.Logic.{ite}
use native.Mathlib.Decide.{ℕ_discrete}
use paged_alloc.Base.{
  ℕ, ◌+◌, ◌^◌, ◌&&◌, Option, none, some, List, ◌∷◌, leb, ltb, ◌==◌, is_power_of_two, if◌then◌else◌,
}
use paged_alloc.Memory.{Bytes}

-- `std::alloc::Layout`.
pub record Layout : Type 0 where
  pub size : ℕ
  pub align : ℕ

-- A block that has been allocated and not yet released.
pub record Block : Type 0 where
  pub addr : ℕ
  pub layout : Layout
  pub open layout use *

pub Layout-discrete : Discrete Layout
Layout-discrete = hlevel ℕ_discrete

pub Block-discrete : Discrete Block
Block-discrete = hlevel (ℕ_discrete, Layout-discrete)

pub record Memory : Type 0 where
  pub bytes : Bytes
  pub live : List Block

abbrev pub block : ℕ → Layout → Block
block p l = record { addr = p; layout = l }

-- The bytes of `[a, a + n)` cleared.
unfoldable pub zero_fill : Bytes → ℕ → ℕ → Bytes
zero_fill m a n q = if leb a q && ltb q (a + n) then 0 else m q

-- `alloc_zeroed(layout)`: the address of a cleared block, or null.
unfoldable pub alloc_zeroed : (Layout → Memory → ℕ) → Layout → Memory → ℕ × Memory
alloc_zeroed place l m =
    let p = place l m in
    if p == 0
    then (0, m)
    else (p, record { bytes = zero_fill m.bytes p l.size; live = block p l ∷ m.live })

-- `dealloc(p, layout)`; `none` is undefined behaviour: no such block is live.
unfoldable pub dealloc : ℕ → Layout → Memory → Option Memory
unfolding Block-discrete
dealloc p l m =
    ite (dec_mem Block-discrete (block p l) m.live)
      (some (record m { live = erase Block-discrete m.live (block p l) })) none

-- `Layout::from_size_align`: `none` is its error. The size, rounded up to the alignment, must not
-- pass `isize::MAX`.
unfoldable pub from_size_align : ℕ → ℕ → Option Layout
from_size_align size align =
    if is_power_of_two align && leb (size + align) (2 ^ 63)
    then some (record { size = size; align = align })
    else none
