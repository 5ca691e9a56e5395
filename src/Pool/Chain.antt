-- ===== src/Pool/Chain.antt =====
-- The intrusive free lists of src/pool.rs: a pointer leads to a buffer whose first bytes hold the
-- next pointer.
use mathlib.Core.List.{Mem, mem-cons_self}
use mathlib.Core.List
use paged_alloc.Base.{ℕ, ◌<◌, ◌≡◌, ◌≢◌, sym, subst, List, [], ◌∷◌, arith}
use paged_alloc.Memory.{Bytes, ptr_size, read_ptr}
use paged_alloc.Memory.Region.{Same}
use paged_alloc.Memory.Pointer.{read_ptr-Same}

-- From `head` the next pointers lead through exactly `ps`.
abbrev pub Chain : Bytes → ℕ → List ℕ → Type 0
Chain m head [] = head ≡ 0
Chain m head (p ∷ ps) = (head ≡ p) × (p ≢ 0) × Chain m (read_ptr m p) ps

-- A change that spares the first bytes of every buffer on the list leaves the list alone.
pub Chain-Same :
    {m n : Bytes} (head : ℕ) (ps : List ℕ)
    → ((p : ℕ) → Mem p ps → Same p ptr_size m n)
    → Chain m head ps
    → Chain n head ps
Chain-Same head [] same c = c
Chain-Same {m} {n} head (p ∷ ps) same (at, ne, rest) = (
  at,
  ne,
  subst (λ h. Chain n h ps) (sym (read_ptr-Same p (same p mem-cons_self)))
      (Chain-Same (read_ptr m p) ps (λ q h. same q (List.mem-cons_of_mem p h)) rest),
)

-- The head is null or the first buffer.
pub head_of :
    (m : Bytes) (head bound : ℕ) (ps : List ℕ)
    → 0 < bound
    → ((p : ℕ) → Mem p ps → p < bound)
    → Chain m head ps
    → head < bound
head_of m head bound [] pos below c = omega arith
head_of m head bound (p ∷ ps) pos below (at, _, _) = omega (arith, below p mem-cons_self)
