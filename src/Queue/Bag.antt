-- ===== src/Queue/Bag.antt =====
-- The abstract page pool: a bag of free pages and a bag of pages in use. What the threads of
-- src/pool.rs do to it, without lists, links, queue or counters.
use mathlib.Core.List.{Perm}
use mathlib.Core.List.Perm
use mathlib.Core.Quot
use mathlib.Core.Quot.{Quot, Quot-set}
use paged_alloc.Base.{ℕ, ◌≡◌, refl, List, ◌∷◌}

abbrev pub Bag : Type 0
Bag = Quot (Perm {A = ℕ})

abbrev pub bag : List ℕ → Bag
bag ps = Quot.mk ps

unfoldable pub put : ℕ → Bag → Bag
put p = Quot.lift Quot-set (λ ps. Quot.mk (p ∷ ps)) (λ ps qs e. Quot.sound (Perm.cons p e))

pub same_bag : {ps qs : List ℕ} → Perm ps qs → bag ps ≡ bag qs
same_bag e = Quot.sound e

pub put-bag : (p : ℕ) (ps : List ℕ) → put p (bag ps) ≡ bag (p ∷ ps)
unfolding put
put-bag p ps = refl

-- The free pages and the pages in use, before and after a step.
pub data Move (free used : Bag) : Bag → Bag → Type 0 where
  stay : Move free used free used
  take : (p : ℕ) {free' : Bag} → free ≡ put p free' → Move free used free' (put p used)
  give : (p : ℕ) {used' : Bag} → used ≡ put p used' → Move free used (put p free) used'
  grow : (p : ℕ) → Move free used free (put p used)

pub data Moves (free used : Bag) : Bag → Bag → Type 0 where
  none : Moves free used free used
  one :
      {free' used' free'' used'' : Bag}
      → Moves free used free' used'
      → Move free' used' free'' used''
      → Moves free used free'' used''
