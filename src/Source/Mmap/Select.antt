-- ===== src/Source/Mmap/Select.antt =====
-- The flags that `HugePageSource::allocate` (src/mmap.rs) passes to mmap.
use Prim.Native.Nat.{bit_or}
use paged_alloc.Base.{ℕ, ◌+◌, ◌*◌, ◌/◌, ◌%◌, ◌^◌, ◌<◌, ◌≡◌, sym, ◌∙◌, ap, some, arith}
use paged_alloc.Base.Flags.{bit_or-shifted, bit_or-lt}
use paged_alloc.Source.Libc.{Libc, shl, anonymous, anonymous_huge}
use paged_alloc.Source.Mmap.{HugePageSource, new_huge}
use paged_alloc.Source.Mmap.Keeps.{new_huge_accepts}

-- Six bits above the others, in a word of 32.
selected : (x e : ℕ) → x < 2 ^ 26 → e < 32 → bit_or x (shl e 26) ≡ x + e * 2 ^ 26
selected x e lt small =
    let in_word : shl e 26 ≡ e * 2 ^ 26 = omega arith in rw in_word (bit_or-shifted 26 x e lt)

module _ (l : Libc) (n : ℕ) (s : HugePageSource) where
  -- If the three constants of libc are below 2^26, the flags of `HugePageSource::allocate` do not
  -- reach the sign bit of an `i32`, their lower 26 bits are those constants, and their upper bits
  -- are the binary logarithm of the page size.
  pub anonymous_huge_lem :
      new_huge n ≡ some s
      → l.map_anonymous < 2 ^ 26
      → l.map_private < 2 ^ 26
      → l.map_hugetlb < 2 ^ 26
      → let flags = anonymous_huge l s.log2_huge_size in
        (flags < 2 ^ 31)
        × (flags % 2 ^ 26 ≡ bit_or (anonymous l) l.map_hugetlb)
        × (2 ^ (flags / 2 ^ 26) ≡ n)
  anonymous_huge_lem e a b c =
      let (_, size, is, which) = new_huge_accepts n s e in
      let low =
        bit_or-lt 26 (anonymous l) l.map_hugetlb (bit_or-lt 26 l.map_anonymous l.map_private a b)
          c in
      let all =
        selected (bit_or (anonymous l) l.map_hugetlb) s.log2_huge_size low
          (ground (arith, which)) in
      (
        ground (arith, all, low, which),
        omega (arith, all, low),
        ap (λ (t : ℕ). 2 ^ t) (omega (arith, all, low)) ∙ sym is ∙ size,
      )
