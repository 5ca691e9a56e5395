-- ===== src/Pool/Links.antt =====
-- Writes to one page, and the free lists that run through other pages (src/pool.rs).
use mathlib.Core.List.{Mem, mem-cons_self}
use mathlib.Core.List
use paged_alloc.Base.{ℕ, ◌≤◌, ◌<◌, ◌≢◌, refl, sym, subst, List, ◌∷◌, arith, word}
use paged_alloc.Memory.{Bytes, ptr_size, write_ptr}
use paged_alloc.Memory.Region.{SameOutside, Same-of_outside}
use paged_alloc.Memory.Pointer.{read-write_ptr, write_ptr_outside}
use paged_alloc.Alloc.{Layout, Block, Memory}
use paged_alloc.Pool.Ownership.{Owns, page-IsPlaced, page-Apart}
use paged_alloc.Pool.Chain.{Chain, Chain-Same, head_of}

pub write_ptr_within :
    {n : ℕ} (m : Bytes) (p next : ℕ) → ptr_size ≤ n → SameOutside p n m (write_ptr m p next)
write_ptr_within m p next fits q out = write_ptr_outside m p next q (omega arith)

module _ {l : Layout} {o : Memory} {rest : List Block} {others : List ℕ} (m : Bytes) where
  -- A list of other pages survives a change within one page.
  pub Chain-spared :
      {n : Bytes} (p head : ℕ) (ps : List ℕ)
      → ptr_size ≤ l.size
      → Owns l o (p ∷ others) rest
      → ((q : ℕ) → Mem q ps → Mem q others)
      → SameOutside p l.size m n
      → Chain m head ps
      → Chain n head ps
  Chain-spared p head ps fits o among same =
      Chain-Same head ps λ q h.
        Same-of_outside p l.size q ptr_size same (omega (arith, page-Apart p q o (among q h)))

  -- A page linked in front of a list of other pages.
  pub Chain-link :
      (p head : ℕ) (ps : List ℕ)
      → ptr_size ≤ l.size
      → Owns l o (p ∷ others) rest
      → ((q : ℕ) → Mem q ps → Mem q others)
      → Chain m head ps
      → Chain (write_ptr m p head) p (p ∷ ps)
  Chain-link p head ps fits o among c = (
    refl,
    not_null,
    subst (λ h. Chain (write_ptr m p head) h ps) (sym (read-write_ptr m p head small))
        (Chain-spared p head ps fits o among (write_ptr_within m p head fits) c),
  )
    where
      not_null : p ≢ 0
      not_null = let placed = page-IsPlaced p o mem-cons_self in omega arith

      below : (q : ℕ) → Mem q ps → q < word
      below q h = let placed = page-IsPlaced q o (List.mem-cons_of_mem p (among q h)) in omega arith

      small : head < word
      small = head_of m head word ps (omega arith) below c
