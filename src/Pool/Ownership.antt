-- ===== src/Pool/Ownership.antt =====
-- Which live blocks are pages of a source, and what allocation, release and writes do to them.
use mathlib.Core.List.{
  Mem, Perm, perm_middle, mem-append_left, mem-cons_self, mem-cons, mem-map_of_mem,
}
use mathlib.Core.List
use mathlib.Core.List.Perm
use mathlib.Core.Logic.Or
use native.Mathlib.Nat.{ℕ_set}
use paged_alloc.Base.{ℕ, ◌%◌, ◌≡◌, sym, subst, List, ◌∷◌, ◌++◌, map}
use paged_alloc.Memory.{ptr_size}
use paged_alloc.Memory.Region.{Apart}
use paged_alloc.Alloc.{Layout, Block, Memory, block}
use paged_alloc.Alloc.Sound.{ApartBlocks, IsPlaced, IsSound, Released, apart_of_perm, IsSound-tail}
use paged_alloc.Alloc.Zeroed.{Allocated}

abbrev pub page : Layout → ℕ → Block
page l p = block p l

-- The live blocks are the pages `ps`, laid out by `l`, and `rest`.
pub record Owns (l : Layout) (m : Memory) (ps : List ℕ) (rest : List Block) : Type 0 where
  pub sound : IsSound m
  pub blocks : Perm m.live (map (page l) ps ++ rest)
  pub aligned : (p : ℕ) → Mem p ps → p % ptr_size ≡ 0

module _ {l : Layout} {m : Memory} {rest : List Block} where
  pub Owns-perm : {ps qs : List ℕ} → Perm ps qs → Owns l m ps rest → Owns l m qs rest
  Owns-perm e o = record {
    sound = o.sound;
    blocks = Perm.trans o.blocks (Perm.append_right rest (Perm.map (page l) e));
    aligned = λ p h. o.aligned p ((Perm.mem_iff e).1 h);
  }

  -- A write changes no block.
  pub Owns-write :
      {n : Memory} {ps : List ℕ} → IsSound n → n.live ≡ m.live → Owns l m ps rest → Owns l n ps rest
  Owns-write {ps} sound e o = record {
    sound = sound;
    blocks = subst (λ bs. Perm bs (map (page l) ps ++ rest)) (sym e) o.blocks;
    aligned = o.aligned;
  }

  pub Owns-Allocated :
      {n : Memory} {ps : List ℕ} (p : ℕ)
      → p % ptr_size ≡ 0
      → Allocated (page l p) m n
      → Owns l m ps rest
      → Owns l n (p ∷ ps) rest
  Owns-Allocated {ps} p even new o = record {
    sound = new.sound;
    blocks =
        subst (λ bs. Perm bs (page l p ∷ map (page l) ps ++ rest)) (sym new.live)
          (Perm.cons _ o.blocks);
    aligned = λ q h.
        Or.elim (ℕ_set _ _) (mem-cons.0 h) (λ e. subst (λ (t : ℕ). t % ptr_size ≡ 0) (sym e) even)
          (o.aligned q);
  }

  pub Owns-Released :
      {n : Memory} {ps : List ℕ} (p : ℕ)
      → Released (page l p) m n
      → Owns l m (p ∷ ps) rest
      → Owns l n ps rest
  Owns-Released p gone o = record {
    sound = IsSound-tail o.sound (page l p) gone.live;
    blocks = Perm.cons_inv (Perm.trans (Perm.symm gone.live) o.blocks);
    aligned = λ q h. o.aligned q (List.mem-cons_of_mem p h);
  }

  pub page_live : {ps : List ℕ} (p : ℕ) → Owns l m ps rest → Mem p ps → Mem (page l p) m.live
  page_live p o h = (Perm.mem_iff o.blocks).1 (mem-append_left rest (mem-map_of_mem (page l) h))

  -- A page is no null pointer and does not wrap.
  pub page-IsPlaced : {ps : List ℕ} (p : ℕ) → Owns l m ps rest → Mem p ps → IsPlaced (page l p)
  page-IsPlaced p o h = o.sound.placed _ (page_live p o h)

  -- The first page meets no other page, and none of the other blocks.
  pub page-Apart :
      {ps : List ℕ} (p q : ℕ) → Owns l m (p ∷ ps) rest → Mem q ps → Apart p l.size q l.size
  page-Apart p q o h =
      apart_of_perm o.sound o.blocks (mem-append_left rest (mem-map_of_mem (page l) h))

  pub rest_apart :
      {ps : List ℕ} (p : ℕ) (b : Block)
      → Owns l m (p ∷ ps) rest
      → Mem b rest
      → ApartBlocks (page l p) b
  rest_apart {ps} p b o h =
      apart_of_perm o.sound o.blocks (List.mem-append_right (map (page l) ps) h)

pub IsSound-write : {m n : Memory} → n.live ≡ m.live → IsSound m → IsSound n
IsSound-write e s = record {
  apart = subst (List.Pairwise ApartBlocks) (sym e) s.apart;
  placed = λ b h. s.placed b (subst (Mem b) e h);
}

-- Moving one page between the local list, the return queue and the pages in use.
module _ (p : ℕ) (free queued used : List ℕ) where
  pub used_first : Perm (free ++ (queued ++ p ∷ used)) (p ∷ (free ++ (queued ++ used)))
  used_first =
      Perm.trans (Perm.append_left free (perm_middle queued used))
        (perm_middle free (queued ++ used))

  pub queued_first : Perm (p ∷ (free ++ (queued ++ used))) (free ++ (p ∷ queued ++ used))
  queued_first = Perm.symm (perm_middle free (queued ++ used))
