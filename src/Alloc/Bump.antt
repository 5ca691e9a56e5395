-- ===== src/Alloc/Bump.antt =====
-- A concrete allocator: it places each block above all that are live.
use mathlib.Core.List.{Mem, mem-cons, not-mem-nil}
use mathlib.Core.Logic.Or
use native.Mathlib.Bridge.{le_prop}
use native.Mathlib.Nat.{mul-mod_left}
use paged_alloc.Base.{
  ℕ, ◌+◌, ◌*◌, ◌/◌, ◌%◌, ◌≤◌, ◌<◌, ◌≡◌, ◌≢◌, ◌&&◌, max, List, [], ◌∷◌, arith, word, leb, ltb,
  if◌then◌else◌,
}
use paged_alloc.Alloc.{Layout, Block, Memory}
use paged_alloc.Alloc.Zeroed.{IsAllocator}

-- The first address above every block of the list.
unfoldable pub top : List Block → ℕ
top [] = 0
top (b ∷ bs) = max (b.addr + b.size) (top bs)

le-top : (c : Block) (bs : List Block) → Mem c bs → c.addr + c.size ≤ top bs
unfolding top
le-top c [] h = absurd (not-mem-nil h)
le-top c (b ∷ bs) h =
    Or.elim le_prop (mem-cons.0 h) (λ is. ground arith) (λ rest. omega (arith, le-top c bs rest))

unfoldable pub bump : Layout → Memory → ℕ
unfolding top
bump l m =
    let p = (top m.live / l.align + 1) * l.align in
    if ltb 0 l.align && leb (p + l.size) word then p else 0

lt_round_up : (t a : ℕ) → 0 < a → t < (t / a + 1) * a
lt_round_up t a h = grind arith

round_up_mod : (k a : ℕ) → ((k + 1) * a) % a ≡ 0
round_up_mod k a = mul-mod_left (k + 1) a

-- Either `bump` fails or the bounds that it tests hold.
bump_cases :
    (l : Layout) (m : Memory)
    → bump l m ≢ 0
    → (top m.live < bump l m) × (bump l m % l.align ≡ 0) × (bump l m + l.size ≤ word)
unfolding bump
bump_cases l m ne =
    ground (arith, lt_round_up (top m.live) l.align, round_up_mod (top m.live / l.align) l.align)

pub bump-IsAllocator : IsAllocator bump
bump-IsAllocator = record {
  places = λ l m sound size ne.
      let (above, aligned, fits) = bump_cases l m ne in
      record {
        placed = record { not_null = omega arith; not_empty = size; in_space = fits };
        aligned = aligned;
        apart = λ c h. omega (arith, le-top c m.live h);
      };
}
