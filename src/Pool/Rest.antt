-- ===== src/Pool/Rest.antt =====
-- Blocks that are no pages, and the invariant of the pool (src/pool.rs).
use mathlib.Core.List.{Mem, Perm, Pairwise-cons, mem-append_left, perm_middle, mem-map_of_mem}
use mathlib.Core.List
use mathlib.Core.List.Perm
use paged_alloc.Base.{ℕ, ◌≡◌, refl, ap, sym, subst, List, ◌∷◌, ◌++◌, map, arith}
use paged_alloc.Memory.{ptr_size}
use paged_alloc.Memory.Region.{Same, SameOutside, Same-of_outside}
use paged_alloc.Alloc.{Block, Memory}
use paged_alloc.Alloc.Sound.{apart_of_perm, IsSound-tail, Released}
use paged_alloc.Alloc.Zeroed.{Allocated}
use paged_alloc.Source.{PageSource, Contract}
use paged_alloc.Pool.{PagePool}
use paged_alloc.Pool.Ownership.{Owns, Owns-write, IsSound-write, page, page_live}
use paged_alloc.Pool.Chain.{Chain-Same}
use paged_alloc.Pool.Invariant.{IsPool}

-- The pool under another account of the blocks, in a memory that agrees on the two lists.
module _ {s : PageSource} (c : Contract s) (pool : PagePool) (m n : Memory)
    {free queued used : List ℕ} {rest rest' : List Block} where
  moved :
      IsPool c pool m free queued used rest
      → Owns c.layout n (free ++ (queued ++ used)) rest'
      → ((p : ℕ) → Mem p (free ++ (queued ++ used)) → Same p ptr_size m.bytes n.bytes)
      → IsPool c pool n free queued used rest'
  moved k owned same = record {
    source = k.source;
    page_size = k.page_size;
    holds_pointer = k.holds_pointer;
    owns = owned;
    local = Chain-Same pool.local_head free (λ p h. same p (mem-append_left _ h)) k.local;
    queue =
        Chain-Same pool.shared.return_head queued
          (λ p h. same p (List.mem-append_right free (mem-append_left used h))) k.queue;
    free_pages = k.free_pages;
    pages_in_use = k.pages_in_use;
    allocations = k.allocations;
  }

module _ {s : PageSource} (c : Contract s) (pool : PagePool) {free queued used : List ℕ}
    {rest : List Block} where
  pub rest-perm :
      {m : Memory} {rest' : List Block}
      → Perm rest rest'
      → IsPool c pool m free queued used rest
      → IsPool c pool m free queued used rest'
  rest-perm {m} e k =
      moved c pool m m k
        (record {
          sound = k.owns.sound;
          blocks = Perm.trans k.owns.blocks (Perm.append_left _ e);
          aligned = k.owns.aligned;
        })
        (λ p h q lo hi. refl)

  pub rest-Released :
      {m n : Memory} (b : Block)
      → Released b m n
      → IsPool c pool m free queued used (b ∷ rest)
      → IsPool c pool n free queued used rest
  rest-Released {m} {n} b gone k =
      moved c pool m n k
        (record {
          sound = IsSound-tail k.owns.sound b gone.live;
          blocks = Perm.cons_inv (
              Perm.trans (Perm.symm gone.live) (
                Perm.trans k.owns.blocks
                  (perm_middle (map (page c.layout) (free ++ (queued ++ used))) rest)));
          aligned = k.owns.aligned;
        })
        (λ p h q lo hi. ap (λ (f : ℕ → ℕ). f q) gone.bytes)

  pub rest-Allocated :
      {m n : Memory} (b : Block)
      → Allocated b m n
      → IsPool c pool m free queued used rest
      → IsPool c pool n free queued used (b ∷ rest)
  rest-Allocated {m} {n} b new k =
      moved c pool m n k
        (record {
          sound = new.sound;
          blocks =
              subst (λ bs. Perm bs (map (page c.layout) (free ++ (queued ++ used)) ++ (b ∷ rest)))
                (sym new.live)
                (Perm.trans (Perm.cons b k.owns.blocks)
                  (Perm.symm (perm_middle (map (page c.layout) (free ++ (queued ++ used))) rest)));
          aligned = k.owns.aligned;
        })
        (λ p h. Same-of_outside b.addr b.size p ptr_size new.same (
          omega (
            arith,
            c.size,
            k.holds_pointer,
            apart_of_perm new.sound
                (subst (λ bs. Perm bs (b ∷ m.live)) (sym new.live) (Perm.refl (b ∷ m.live)))
                (page_live p k.owns h),
          )))

  -- A write within a block that is no page.
  pub rest-written :
      {m n : Memory} (b : Block)
      → SameOutside b.addr b.size m.bytes n.bytes
      → n.live ≡ m.live
      → IsPool c pool m free queued used (b ∷ rest)
      → IsPool c pool n free queued used (b ∷ rest)
  rest-written {m} {n} b same live k =
      moved c pool m n k (Owns-write (IsSound-write live k.owns.sound) live k.owns) (λ p h.
        Same-of_outside b.addr b.size p ptr_size same (
          omega (
            arith,
            c.size,
            k.holds_pointer,
            apart_of_perm k.owns.sound
                (Perm.trans k.owns.blocks
                  (perm_middle (map (page c.layout) (free ++ (queued ++ used))) rest))
                (mem-append_left rest (mem-map_of_mem (page c.layout) h)),
          )))
