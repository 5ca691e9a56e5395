-- ===== src/Alloc/Zeroed.antt =====
-- What `alloc_zeroed` hands out, given an allocator that keeps its documented promises.
use mathlib.Core.List.{Mem, Pairwise, Pairwise-cons, mem-cons}
use mathlib.Core.Logic.Or
use paged_alloc.Base.{
  ℕ, ◌+◌, ◌%◌, ◌≤◌, ◌<◌, ◌≡◌, ◌≢◌, refl, subst, sym, ◌∷◌, arith, ==_cases, inl, inr,
}
use paged_alloc.Memory.Region.{SameOutside}
use paged_alloc.Alloc.{Layout, Block, Memory, block, zero_fill, alloc_zeroed}
use paged_alloc.Alloc.Sound.{ApartBlocks, IsPlaced, IsPlaced-prop, IsSound}

-- Where a new block may lie: aligned, and apart from all that is live.
pub record CanHold (m : Memory) (b : Block) : Type 0 where
  pub placed : IsPlaced b
  pub aligned : b.addr % b.align ≡ 0
  pub apart : (c : Block) → Mem c m.live → ApartBlocks b c

-- The documented behaviour of a global allocator, asked for a layout that is not empty.
pub record IsAllocator (place : Layout → Memory → ℕ) : Type 0 where
  pub places :
      (l : Layout) (m : Memory)
      → IsSound m
      → 0 < l.size
      → place l m ≢ 0
      → CanHold m (block (place l m) l)

-- `n` is `m` with the cleared block `b` as well.
pub record Allocated (b : Block) (m n : Memory) : Type 0 where
  pub live : n.live ≡ b ∷ m.live
  pub sound : IsSound n
  pub same : SameOutside b.addr b.size m.bytes n.bytes
  pub zero : (q : ℕ) → b.addr ≤ q → q < b.addr + b.size → n.bytes q ≡ 0

IsSound-cons :
    (m : Memory) (b : Block) (n : Memory)
    → IsSound m
    → CanHold m b
    → n.live ≡ b ∷ m.live
    → IsSound n
IsSound-cons m b n sound new e = record {
  apart = subst (Pairwise ApartBlocks) (sym e) (Pairwise-cons.1 (new.apart, sound.apart));
  placed = λ c h.
      Or.elim (IsPlaced-prop c) (mem-cons.0 (subst (Mem c) e h))
        (λ is. subst IsPlaced (sym is) new.placed) (sound.placed c);
}

zero_fill_in : (m : ℕ → ℕ) (a n q : ℕ) → a ≤ q → q < a + n → zero_fill m a n q ≡ 0
unfolding zero_fill
zero_fill_in m a n q lo hi = ground arith

zero_fill_out : (m : ℕ → ℕ) (a n : ℕ) → SameOutside a n m (zero_fill m a n)
unfolding zero_fill
zero_fill_out m a n q out = ground arith

pub alloc_zeroed_lem :
    {place : Layout → Memory → ℕ} (good : IsAllocator place) (l : Layout) (m : Memory)
    → IsSound m
    → 0 < l.size
    → let (p, n) = alloc_zeroed place l m in p ≢ 0 → (p % l.align ≡ 0) × Allocated (block p l) m n
unfolding alloc_zeroed
alloc_zeroed_lem {place} good l m sound size some_block = elim (==_cases (place l m) 0) [
  | inl (e, is) ↦ absurd (some_block (rw e))
  | inr (e, ne) ↦
      let new = good.places l m sound size ne in
      rw e (
        new.aligned,
        record {
          live = refl;
          sound = IsSound-cons m _ _ sound new refl;
          same = zero_fill_out m.bytes (place l m) l.size;
          zero = zero_fill_in m.bytes (place l m) l.size;
        },
      )
]
