-- ===== src/Queue/Pushes.antt =====
-- The calls of `push_return` under way (src/pool.rs): the pages that they hold, the counts that they
-- still owe, and what they rely on in memory.
use mathlib.Core.List.{Mem, Mem-prop, Perm, perm_middle, mem-cons, mem-cons_self, mem-append_left}
use mathlib.Core.List
use mathlib.Core.List.Perm
use mathlib.Core.Logic.Or
use native.Mathlib.Nat.{ℕ_set}
use native.Mathlib.Bridge.{le_prop}
use paged_alloc.Base.{
  ℕ, ◌+◌, ◌≤◌, ◌<◌, ◌≡◌, refl, sym, subst, List, [], ◌∷◌, ◌++◌, arith, word, ◌∙◌,
}
use paged_alloc.Memory.{Bytes, ptr_size, read_ptr}
use paged_alloc.Memory.Region.{SameOutside, Same-of_outside}
use paged_alloc.Memory.Pointer.{read_ptr-Same}
use paged_alloc.Alloc.{Layout, Block, Memory}
use paged_alloc.Pool.Ownership.{Owns, page-Apart}
use paged_alloc.Queue.{
  Phase, load, linking, swapping, uncounting, counting, Push, Owner, idle, asking, found,
}

-- The page is the call's own until the exchange has succeeded.
abbrev pub page_of : ℕ → Phase → List ℕ
page_of p load = p ∷ []
page_of p (linking head) = p ∷ []
page_of p (swapping head) = p ∷ []
page_of p uncounting = []
page_of p counting = []

abbrev pub busy : Push → List ℕ
busy f = page_of f.page f.phase

abbrev pub pushing : List Push → List ℕ
pushing [] = []
pushing (f ∷ fs) = busy f ++ pushing fs

abbrev pub owned_by : Owner → List ℕ
owned_by idle = []
owned_by asking = []
owned_by (found p) = p ∷ []

abbrev pub used_of : Owner → List Push → List ℕ → List ℕ
used_of owner pushes held = owned_by owner ++ (pushing pushes ++ held)

-- What a call has still to take from `pages_in_use`, and to add to `free_pages`, for a page that is
-- on the queue already.
abbrev pub owes_use : Phase → ℕ
owes_use load = 0
owes_use (linking head) = 0
owes_use (swapping head) = 0
owes_use uncounting = 1
owes_use counting = 0

abbrev pub owes_free : Phase → ℕ
owes_free load = 0
owes_free (linking head) = 0
owes_free (swapping head) = 0
owes_free uncounting = 1
owes_free counting = 1

abbrev pub total : (Phase → ℕ) → List Push → ℕ
total owes [] = 0
total owes (f ∷ fs) = owes f.phase + total owes fs

pub total-middle :
    (owes : Phase → ℕ) (fs gs : List Push) (f : Push)
    → total owes (fs ++ (f ∷ gs)) ≡ owes f.phase + total owes (fs ++ gs)
total-middle owes [] gs f = refl
total-middle owes (g ∷ fs) gs f = omega (arith, total-middle owes fs gs f)

-- A page, or none, moves in front of a list.
hop :
    (p : ℕ) (phase : Phase) (xs ys : List ℕ)
    → Perm (xs ++ (page_of p phase ++ ys)) (page_of p phase ++ (xs ++ ys))
hop p load xs ys = perm_middle xs ys
hop p (linking head) xs ys = perm_middle xs ys
hop p (swapping head) xs ys = perm_middle xs ys
hop p uncounting xs ys = Perm.refl _
hop p counting xs ys = Perm.refl _

pub pushing-middle :
    (fs gs : List Push) (f : Push) → Perm (pushing (fs ++ (f ∷ gs))) (busy f ++ pushing (fs ++ gs))
pushing-middle [] gs f = Perm.refl _
pushing-middle (g ∷ fs) gs f =
    Perm.trans (Perm.append_left (busy g) (pushing-middle fs gs f))
      (hop f.page f.phase (busy g) (pushing (fs ++ gs)))

pub Mem-pushing :
    (fs : List Push) (f : Push) (q : ℕ) → Mem f fs → Mem q (busy f) → Mem q (pushing fs)
Mem-pushing [] f q h hq = absurd (List.not-mem-nil h)
Mem-pushing (g ∷ fs) f q h hq =
    Or.elim Mem-prop (mem-cons.0 h)
      (λ e. mem-append_left (pushing fs) (subst (λ t. Mem q (busy t)) e hq))
      (λ t. List.mem-append_right (busy g) (Mem-pushing fs f q t hq))

-- The head that a call has read is a word; the next pointer that it has written is still there.
abbrev pub IsReady : Bytes → ℕ → Phase → Type 0
IsReady m p load = Unit
IsReady m p (linking head) = head < word
IsReady m p (swapping head) = read_ptr m p ≡ head
IsReady m p uncounting = Unit
IsReady m p counting = Unit

IsReady-prop : (m : Bytes) (p : ℕ) (phase : Phase) → IsProp (IsReady m p phase)
IsReady-prop m p load = hlevel
IsReady-prop m p (linking head) = le_prop
IsReady-prop m p (swapping head) = ℕ_set _ _
IsReady-prop m p uncounting = hlevel
IsReady-prop m p counting = hlevel

abbrev pub Ready : Bytes → List Push → Type 0
Ready m fs = (f : Push) → Mem f fs → IsReady m f.page f.phase

pub Ready-cons :
    (m : Bytes) (f : Push) (fs : List Push)
    → IsReady m f.page f.phase
    → Ready m fs
    → Ready m (f ∷ fs)
Ready-cons m f fs is rest g h =
    Or.elim (IsReady-prop m g.page g.phase) (mem-cons.0 h)
      (λ e. subst (λ t. IsReady m (Push.page t) (Push.phase t)) (sym e) is) (rest g)

-- A call in the middle of the list.
pub Ready-out :
    (m : Bytes) (fs gs : List Push) (f : Push)
    → Ready m (fs ++ (f ∷ gs))
    → IsReady m f.page f.phase × Ready m (fs ++ gs)
Ready-out m fs gs f r = (
  r f (List.mem-append_right fs mem-cons_self),
  λ g h. r g ((Perm.mem_iff (perm_middle fs gs)).1 (List.mem-cons_of_mem f h)),
)

pub Ready-in :
    (m : Bytes) (fs gs : List Push) (f : Push)
    → IsReady m f.page f.phase
    → Ready m (fs ++ gs)
    → Ready m (fs ++ (f ∷ gs))
Ready-in m fs gs f is r g h =
    Ready-cons m f (fs ++ gs) is r g ((Perm.mem_iff (perm_middle fs gs)).0 h)

module _ {l : Layout} {o : Memory} {rest : List Block} {others : List ℕ} (m n : Bytes) (p : ℕ) where
  IsReady-spared :
      (q : ℕ) (phase : Phase)
      → ptr_size ≤ l.size
      → Owns l o (p ∷ others) rest
      → ((t : ℕ) → Mem t (page_of q phase) → Mem t others)
      → SameOutside p l.size m n
      → IsReady m q phase
      → IsReady n q phase
  IsReady-spared q load fits owned among same is = tt
  IsReady-spared q (linking head) fits owned among same is = is
  IsReady-spared q (swapping head) fits owned among same is =
      read_ptr-Same q (
        Same-of_outside p l.size q ptr_size same
          (omega (arith, page-Apart p q owned (among q mem-cons_self))))
      ∙ is
  IsReady-spared q uncounting fits owned among same is = tt
  IsReady-spared q counting fits owned among same is = tt

  -- A change within one page spares the calls for other pages.
  pub Ready-spared :
      (fs : List Push)
      → ptr_size ≤ l.size
      → Owns l o (p ∷ others) rest
      → ((q : ℕ) → Mem q (pushing fs) → Mem q others)
      → SameOutside p l.size m n
      → Ready m fs
      → Ready n fs
  Ready-spared fs fits owned among same r f h =
      IsReady-spared f.page f.phase fits owned (λ t ht. among t (Mem-pushing fs f t h ht)) same
        (r f h)
