-- ===== src/Source/Mmap/Keeps.antt =====
-- The sources of src/mmap.rs, and the contract of `PageSource`.
use mathlib.Core.List.{Mem}
use native.Mathlib.Nat.{mul_assoc, mul-mod_left}
use paged_alloc.Base.{
  ◌∙◌, ℕ, zero, suc, ◌+◌, ◌*◌, ◌/◌, ◌%◌, ◌^◌, ◌≤◌, ◌<◌, ◌≡◌, ◌⊎◌, refl, sym, ap, subst, inl, inr,
  Bool, some, ℤ, pos, negsuc, word, arith, Option-cases,
}
use paged_alloc.Memory.{ptr_size}
use paged_alloc.Alloc.{Layout, Memory, block}
use paged_alloc.Alloc.Sound.{IsSound, Released}
use paged_alloc.Alloc.Zeroed.{Allocated}
use paged_alloc.Source.{Contract, WritesIn}
use paged_alloc.Source.Libc.{Libc, IsMapper, anonymous, anonymous_huge}
use paged_alloc.Source.Touch.{touch_within, touch-Touched, Touched, other_byte}
use paged_alloc.Source.Mmap.{
  os_page_size, MmapSource, new, map_page, unmap_page, prefault, mmap_source, or_else,
  HugePageSource, new_huge, huge_source,
}

os_page_size_pos : (l : Libc) → 0 < os_page_size l
unfolding os_page_size
os_page_size_pos l = go l.sysconf_page_size refl
  where
    go : (z : ℤ) → l.sysconf_page_size ≡ z → 0 < os_page_size l
    go (pos zero) e = rw e (omega arith)
    go (pos (suc n)) e = rw e (omega arith)
    go (negsuc n) e = rw e (omega arith)

pub new_accepts :
    (l : Libc) (n : ℕ) (s : MmapSource)
    → new l n ≡ some s
    → (s.page_size ≡ n) × (ptr_size ≤ n) × (n % os_page_size l ≡ 0)
unfolding new
new_accepts l n s e = ground arith

mod_of_mod : (p g : ℕ) → p % g ≡ 0 → g % ptr_size ≡ 0 → p % ptr_size ≡ 0
mod_of_mod p g e f =
    let whole : p ≡ p / g * g = grind arith in
    let eights : g ≡ g / ptr_size * ptr_size = omega arith in
    subst (λ (t : ℕ). t % ptr_size ≡ 0)
      (sym (
        whole ∙ ap (λ (t : ℕ). p / g * t) eights ∙ sym (mul_assoc (p / g) (g / ptr_size) ptr_size)))
      (mul-mod_left (p / g * (g / ptr_size)) ptr_size)

pub new_huge_accepts :
    (n : ℕ) (s : HugePageSource)
    → new_huge n ≡ some s
    → (ptr_size ≤ s.page_size)
      × (s.page_size ≡ n)
      × (s.page_size ≡ 2 ^ s.log2_huge_size)
      × ((s.log2_huge_size ≡ 21) ⊎ (s.log2_huge_size ≡ 30))
unfolding new_huge
new_huge_accepts n s e = ground arith

pub prefault-WritesIn :
    (l : Libc) (s : MmapSource) (m : Memory) (p : ℕ)
    → WritesIn p s.page_size m (or_else m (prefault l s p m))
unfolding prefault
prefault-WritesIn l s m p = elim (Option-cases (prefault l s p m)) [
  | inl e ↦ rw e (record { live = refl; same = λ q out. refl })
  | inr (m', e) ↦
      let (live, same) = touch_within (suc s.page_size) s.page_size (os_page_size l) p 0 m m' e in
      rw e (record { live = live; same = same })
]

module _ (l : Libc) (k : IsMapper l) where
  abbrev pub layout : ℕ → Layout
  layout n = record { size = n; align = k.granule }

  pub map_page_lem :
      (n flags : ℕ)
      → 0 < n
      → (flags ≡ anonymous l) ⊎ ((e : ℕ) × (flags ≡ anonymous_huge l e))
      → (m m' : Memory) (p : ℕ) → IsSound m
      → map_page l n flags m ≡ some (p, m')
      → (p % ptr_size ≡ 0) × Allocated (block p (layout n)) m m'
  unfolding map_page
  map_page_lem n flags above which m m' p sound e =
      ground (arith, mod_of_mod p k.granule, k.aligned, k.maps n flags m sound above which)

  pub unmap_page_lem :
      (debug : Bool) (n : ℕ) (m : Memory) (p : ℕ)
      → Mem (block p (layout n)) m.live
      → (m' : Memory) × (unmap_page debug l n p m ≡ some m') × Released (block p (layout n)) m m'
  unfolding unmap_page
  unmap_page_lem debug n m p h =
      let (m', e, gone) = k.unmaps p n m h in (m', rw e (ground arith), gone)

  -- What each clause of the contract holds by.
  unfoldable pub mmap_contract :
      (debug : Bool) (s : MmapSource) → ptr_size ≤ s.page_size → Contract (mmap_source debug l s)
  unfolding mmap_source
  mmap_contract debug s holds = record {
    layout = layout s.page_size;
    size = refl;
    allocates = λ m m' p. map_page_lem s.page_size (anonymous l) (omega arith) (inl refl) m m' p;
    releases = λ m p. unmap_page_lem debug s.page_size m p;
    prefaults = λ m p h. prefault-WritesIn l s m p;
  }

  -- Over a kernel that keeps what mmap(2) and munmap(2) say, a `MmapSource` of pages that hold a
  -- pointer keeps the contract of `PageSource`, with debug assertions on or off.
  pub MmapSource-Contract :
      (debug : Bool) (s : MmapSource) → ptr_size ≤ s.page_size → Contract (mmap_source debug l s)
  MmapSource-Contract debug s holds = mmap_contract debug s holds

  -- Over such a kernel every `HugePageSource` that its constructor accepts keeps the contract of
  -- `PageSource`, with debug assertions on or off.
  pub HugePageSource-Contract :
      (debug : Bool) (s : HugePageSource) (n : ℕ)
      → new_huge n ≡ some s
      → Contract (huge_source debug l s)
  unfolding huge_source
  HugePageSource-Contract debug s n e = record {
    layout = layout s.page_size;
    size = refl;
    allocates = λ m m' p.
        map_page_lem s.page_size (anonymous_huge l s.log2_huge_size)
          (omega (arith, (new_huge_accepts n s e).0)) (inr (s.log2_huge_size, refl)) m m' p;
    releases = λ m p. unmap_page_lem debug s.page_size m p;
    prefaults = λ m p h. record {
      live = refl;
      same = λ q out. other_byte m p q (omega (arith, (new_huge_accepts n s e).0));
    };
  }

-- The prefault of a `MmapSource` that was accepted ends, if the size of its pages and that of the
-- pages of the system do not sum up beyond 2^64; it has cleared the first byte of every page of the
-- system within the buffer, and nothing else has changed.
pub prefault-Touched :
    (l : Libc) (n : ℕ) (s : MmapSource) (p : ℕ) (m : Memory)
    → new l n ≡ some s
    → n + os_page_size l ≤ word
    → (m' : Memory) × (prefault l s p m ≡ some m') × Touched n (os_page_size l) p 0 m m'
unfolding prefault
prefault-Touched l n s p m e fits = rw (sym (new_accepts l n s e).0) (
    touch-Touched s.page_size s.page_size (os_page_size l) p 0 m (os_page_size_pos l)
      (omega (arith, (new_accepts l n s e).0)) (omega arith))
