-- ===== src/Pool/Advise.antt =====
-- `madvise_dontneed` (src/mmap.rs) on the pages of a pool (src/pool.rs).
use mathlib.Core.List.{mem-cons_self}
use mathlib.Core.List
use paged_alloc.Base.{
  ℕ, ◌+◌, ◌≤◌, ◌<◌, ◌≡◌, zero, suc, ◌⊎◌, inl, inr, true, false, ==_cases, refl, sym, ap, ◌∙◌, subst,
  List, [], ◌∷◌, arith, ℤ, pos, negsuc, ok, err, Bool, ◌%◌,
}
use paged_alloc.Memory.{Bytes, ptr_size, read_ptr, read_bytes, decode}
use paged_alloc.Alloc.{Block, Memory}
use paged_alloc.Source.{Contract}
use paged_alloc.Source.Libc.{Libc, IsMapper, IsMapped, IsAdviser}
use paged_alloc.Source.Mmap.Keeps.{mmap_contract}
use paged_alloc.Pool.Ownership.{page_live}
use paged_alloc.Source.Mmap.{MmapSource, mmap_source, madvise_dontneed, is_zero}
use paged_alloc.Pool.{PagePool}
use paged_alloc.Pool.Chain.{Chain}
use paged_alloc.Pool.Invariant.{IsPool}
use paged_alloc.Pool.Write.{write-IsPool}

is_zero_cases : (z : ℤ) → ((is_zero z ≡ true) × (z ≡ pos 0)) ⊎ (is_zero z ≡ false)
is_zero_cases (negsuc n) = inr refl
is_zero_cases (pos n) = elim (==_cases n 0) [
  | inl (e, is) ↦ inl (e, ap pos is)
  | inr (e, _) ↦ inr e
]

module _ (l : Libc) (p len : ℕ) (m : Memory) where
  -- Whatever it returns, memory is what the call left; `Ok` is a result of 0.
  madvised : (madvise_dontneed l p len m).1 ≡ (l.madvise p len l.madv_dontneed m).1
  unfolding madvise_dontneed
  madvised = elim (is_zero_cases (l.madvise p len l.madv_dontneed m).0) [
    | inl (e, _) ↦ rw e refl
    | inr e ↦ rw e refl
  ]

  -- `Ok` is a result of 0.
  madvised_cases :
      let (result, n) = madvise_dontneed l p len m in
      ((result ≡ ok tt) × ((l.madvise p len l.madv_dontneed m).0 ≡ pos 0))
      ⊎ (result ≡ err (l.last_os_error n))
  unfolding madvise_dontneed
  madvised_cases = elim (is_zero_cases (l.madvise p len l.madv_dontneed m).0) [
    | inl (e, is) ↦ inl (rw e refl, is)
    | inr e ↦ inr (rw e refl)
  ]

  madvised_ok :
      (madvise_dontneed l p len m).0 ≡ ok tt → (l.madvise p len l.madv_dontneed m).0 ≡ pos 0
  madvised_ok e = elim madvised_cases [ inl (_, is) ↦ is | inr failed ↦ cc ]

module _ (l : Libc) (mapper : IsMapper l) (k : IsAdviser l mapper.granule) (debug : Bool)
    (s : MmapSource) (holds : ptr_size ≤ s.page_size) where
  abbrev c : Contract (mmap_source debug l s)
  c = mmap_contract l mapper debug s holds

  -- The start of a page in use is that of a live mapping.
  in_use-IsMapped :
      (pool : PagePool) (m : Memory) (p len : ℕ) (free queued used : List ℕ) (rest : List Block)
      → p % mapper.granule ≡ 0
      → len % mapper.granule ≡ 0
      → len ≤ s.page_size
      → IsPool c pool m free queued (p ∷ used) rest
      → IsMapped mapper.granule p len m
  unfolding mmap_contract
  in_use-IsMapped pool m p len free queued used rest start whole fits is = record {
    start = start;
    whole = whole;
    base = p;
    size = s.page_size;
    live =
        page_live p is.owns
          (List.mem-append_right free (List.mem-append_right queued mem-cons_self));
    from = omega arith;
    to = omega arith;
  }

  -- Over a kernel that keeps what its manual says, in a pool over a `MmapSource`:
  -- `madvise_dontneed` on whole pages of the kernel, at most a page of the pool from the start of a
  -- page in use that the kernel has aligned, keeps the invariant of the pool; either it is `Ok` and
  -- the bytes read 0, or it is the error of the system.
  pub madvise_dontneed-IsPool :
      (pool : PagePool) (m : Memory) (p len : ℕ) (free queued used : List ℕ) (rest : List Block)
      → p % mapper.granule ≡ 0
      → len % mapper.granule ≡ 0
      → len ≤ s.page_size
      → IsPool c pool m free queued (p ∷ used) rest
      → let (result, n) = madvise_dontneed l p len m in
        IsPool c pool n free queued (p ∷ used) rest
        × (((result ≡ ok tt) × ((q : ℕ) → p ≤ q → q < p + len → n.bytes q ≡ 0))
            ⊎ (result ≡ err (l.last_os_error n)))
  unfolding mmap_source
  madvise_dontneed-IsPool pool m p len free queued used rest start whole fits is =
      let region = in_use-IsMapped pool m p len free queued used rest start whole fits is in
      (
        subst (λ n. IsPool c pool n free queued (p ∷ used) rest) (sym (madvised l p len m))
            (write-IsPool c pool m (l.madvise p len l.madv_dontneed m).1 p free queued used rest
              (λ q out. k.same p len m region q (omega arith)) (k.live p len m region) is),
        elim (madvised_cases l p len m) [
          | inl (e, done) ↦ inl (
            e,
            λ q lo hi.
                ap (λ n. Memory.bytes n q) (madvised l p len m)
                ∙ k.zero p len q m region done lo hi,
          )
          | inr e ↦ inr e
        ],
      )

zero_bytes :
    (n a : ℕ) (m : Bytes) → ((q : ℕ) → a ≤ q → q < a + n → m q ≡ 0) → decode (read_bytes m a n) ≡ 0
unfolding read_bytes decode
zero_bytes zero a m z = refl
zero_bytes (suc n) a m z = omega (
  arith,
  z a (omega arith) (omega arith),
  zero_bytes n (suc a) m (λ q lo hi. z q (omega arith) (omega arith)),
)

module _ (l : Libc) (granule : ℕ) (k : IsAdviser l granule) where
  -- But if it is called on a page of a live mapping that is first on a free list, for whole pages
  -- of the kernel and at least eight bytes, and succeeds, the list ends at that page: all the pages
  -- behind it are lost.
  pub madvise_dontneed-cuts :
      (m : Memory) (head p q : ℕ) (ps : List ℕ) (len : ℕ)
      → ptr_size ≤ len
      → IsMapped granule p len m
      → Chain m.bytes head (p ∷ q ∷ ps)
      → (madvise_dontneed l p len m).0 ≡ ok tt
      → let (_, n) = madvise_dontneed l p len m in
        Chain n.bytes head (p ∷ []) × (¬ Chain n.bytes head (p ∷ q ∷ ps))
  unfolding read_ptr
  madvise_dontneed-cuts m head p q ps len fits region chain e =
      let null = cleared in ((chain.0, chain.1, null), λ kept. kept.2.1 (sym kept.2.0 ∙ null))
    where
      cleared : read_ptr (madvise_dontneed l p len m).1.bytes p ≡ 0
      cleared = zero_bytes ptr_size p (madvise_dontneed l p len m).1.bytes (λ t lo hi.
          ap (λ n. Memory.bytes n t) (madvised l p len m)
          ∙ k.zero p len t m region (madvised_ok l p len m e) lo (omega arith))
