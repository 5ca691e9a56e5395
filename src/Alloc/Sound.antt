-- ===== src/Alloc/Sound.antt =====
-- Live blocks never meet; what releasing one leaves behind.
use mathlib.Core.List.{Mem, Pairwise, Perm, Pairwise-cons, perm_cons_erase, dec_mem, erase}
use mathlib.Core.List
use mathlib.Core.List.Perm
use mathlib.Core.Logic.{if_pos}
use native.Mathlib.Bridge.{le_prop}
use paged_alloc.Base.{ℕ, ◌+◌, ◌≤◌, ◌<◌, ◌≡◌, refl, some, List, ◌∷◌, arith, word}
use paged_alloc.Memory.Region.{Apart}
use paged_alloc.Alloc.{Layout, Block, Block-discrete, Memory, block, dealloc}

abbrev pub ApartBlocks : Block → Block → Type 0
ApartBlocks b c = Apart b.addr b.size c.addr c.size

-- No block is null or empty, or wraps round the end of the address space.
pub record IsPlaced (b : Block) : Type 0 where
  pub not_null : 0 < b.addr
  pub not_empty : 0 < b.size
  pub in_space : b.addr + b.size ≤ word

pub IsPlaced-prop : (b : Block) → IsProp (IsPlaced b)
IsPlaced-prop b = hlevel le_prop

pub record IsSound (m : Memory) : Type 0 where
  pub apart : Pairwise ApartBlocks m.live
  pub placed : (b : Block) → Mem b m.live → IsPlaced b

ApartBlocks-symm : (b c : Block) → ApartBlocks b c → ApartBlocks c b
ApartBlocks-symm b c h = omega arith

module _ {m : Memory} (sound : IsSound m) where
  pub Pairwise-of_perm : {bs : List Block} → Perm m.live bs → Pairwise ApartBlocks bs
  Pairwise-of_perm p = Perm.pairwise (λ b c. le_prop) ApartBlocks-symm p sound.apart

  pub apart_of_perm :
      {b c : Block} {bs : List Block} → Perm m.live (b ∷ bs) → Mem c bs → ApartBlocks b c
  apart_of_perm p h = (Pairwise-cons.0 (Pairwise-of_perm p)).0 _ h

  pub IsPlaced-of_perm : {b : Block} {bs : List Block} → Perm m.live bs → Mem b bs → IsPlaced b
  IsPlaced-of_perm p h = sound.placed _ ((Perm.mem_iff p).1 h)

  pub IsSound-tail : {n : Memory} (b : Block) → Perm m.live (b ∷ n.live) → IsSound n
  IsSound-tail b p = record {
    apart = (Pairwise-cons.0 (Pairwise-of_perm p)).1;
    placed = λ c h. IsPlaced-of_perm p (List.mem-cons_of_mem b h);
  }

-- What a successful release promises.
pub record Released (b : Block) (m n : Memory) : Type 0 where
  pub bytes : n.bytes ≡ m.bytes
  pub live : Perm m.live (b ∷ n.live)

pub dealloc_lem :
    (p : ℕ) (l : Layout) (m : Memory)
    → Mem (block p l) m.live
    → (n : Memory) × (dealloc p l m ≡ some n) × Released (block p l) m n
unfolding dealloc
dealloc_lem p l m h =
    rw (if_pos _ h) (_, refl, record { bytes = refl; live = perm_cons_erase Block-discrete h })
