-- ===== src/Chunk/Fit.antt =====
-- src/chunk.rs: the test of the packed path, and the ranges of a page that a request could have.
use paged_alloc.Base.{
  ℕ, zero, suc, ◌+◌, ◌-◌, ◌*◌, ◌%◌, ◌^◌, ◌≤◌, ◌<◌, ◌≡◌, refl, inl, inr, ◌⊎◌, leb_cases, none, some,
  word, wrapping_add, wrapping_sub, ◌/◌, saturating_add, arith,
}
use native.Mathlib.Nat.{pow-suc}
use paged_alloc.Base.Bits.{pow_pos}
use paged_alloc.Chunk.{align_up}
use paged_alloc.Chunk.Align.{Ceiling, align_up-Ceiling, multiple_le}
use paged_alloc.Chunk.Dispatch.{fit}

-- A page that lies in memory, with a cursor in it.
pub record IsOpen (page_size buf write_offset : ℕ) : Type 0 where
  pub not_null : 2 ≤ buf
  pub in_space : buf + page_size ≤ word
  pub within : write_offset ≤ page_size

-- `size` bytes at `offset` lie on the page, past the cursor, at a multiple of `align`.
pub record Fits (page_size buf write_offset size align offset : ℕ) : Type 0 where
  pub past : write_offset ≤ offset
  pub inside : offset + size ≤ page_size
  pub multiple : ℕ
  pub aligned : buf + offset ≡ multiple * align

-- The test of `fit` in terms of the multiple that `align_up` finds.
fit_lem :
    (page_size buf write_offset size k : ℕ)
    → k < 64
    → IsOpen page_size buf write_offset
    → (r : ℕ) × Ceiling (2 ^ k) (buf + write_offset) r
      × (((fit page_size buf write_offset size (2 ^ k) ≡ some (r - buf))
            × (r - buf + size ≤ page_size))
          ⊎ ((fit page_size buf write_offset size (2 ^ k) ≡ none) × (page_size < r - buf + size)))
unfolding fit
fit_lem page_size buf write_offset size k lt is =
    let (r, (q, multiple, above, near), in_space, same) =
      align_up-Ceiling k (buf + write_offset) lt (omega arith) in
    let offset : wrapping_sub (align_up (wrapping_add buf write_offset) (2 ^ k)) buf ≡ r - buf =
      omega (arith, same) in
    (
      r,
      (q, multiple, above, near),
      rw offset (elim (leb_cases (saturating_add (r - buf) size) page_size) [
        | inl (holds, le) ↦ inl (rw holds refl, omega arith)
        | inr (fails, gt) ↦ inr (rw fails refl, omega arith)
      ]),
    )
  where
    open is use {not_null, in_space, within}

-- No aligned place past the cursor lies before the first multiple.
first :
    (page_size buf write_offset size k r s : ℕ)
    → Ceiling (2 ^ k) (buf + write_offset) r
    → Fits page_size buf write_offset size (2 ^ k) s
    → r ≤ buf + s
first page_size buf write_offset size k r s (q, multiple, above, near) fits =
    omega (arith, multiple_le (2 ^ k) q fits.multiple (omega arith))
  where
    open fits use {past, aligned}

-- On a page that lies in memory, the offset that the packed path takes is past the cursor, on the
-- page with all its bytes, aligned as an absolute address, and the first such.
pub fit-Fits :
    (page_size buf write_offset size k offset : ℕ)
    → k < 64
    → IsOpen page_size buf write_offset
    → fit page_size buf write_offset size (2 ^ k) ≡ some offset
    → Fits page_size buf write_offset size (2 ^ k) offset
      × ((s : ℕ) → Fits page_size buf write_offset size (2 ^ k) s → offset ≤ s)
fit-Fits page_size buf write_offset size k offset lt is found =
    let (r, ceiling, result) = fit_lem page_size buf write_offset size k lt is in
    elim result [
      | inl (claims, inside) ↦
          let same : r - buf ≡ offset = cc in
          let (q, multiple, above, near) = ceiling in
          (
            record {
              past = omega arith;
              inside = omega arith;
              multiple = q;
              aligned = omega arith;
            },
            λ s fits. omega (arith, first page_size buf write_offset size k r s ceiling fits),
          )
      | inr (claims, past) ↦ cc
    ]

-- If some aligned range past the cursor fits on the open page, the packed path finds one, at or
-- before it.
pub fit_complete :
    (page_size buf write_offset size k s : ℕ)
    → k < 64
    → IsOpen page_size buf write_offset
    → Fits page_size buf write_offset size (2 ^ k) s
    → (offset : ℕ) × (fit page_size buf write_offset size (2 ^ k) ≡ some offset) × (offset ≤ s)
fit_complete page_size buf write_offset size k s lt is fits =
    let (r, ceiling, result) = fit_lem page_size buf write_offset size k lt is in
    let le = first page_size buf write_offset size k r s ceiling fits in
    elim result [
      | inl (claims, inside) ↦ (r - buf, claims, omega arith)
      | inr (claims, past) ↦ absurd (omega (arith, fits.inside))
    ]

-- What `allocate_aligned` has checked before it takes the packed path.
abbrev pub IsPacked : (page_size size align : ℕ) → Type 0
IsPacked page_size size align =
    (size ≤ page_size) × ((align ≤ 8) ⊎ (size + (align - 1) ≤ page_size))

pub small_power : (k buf : ℕ) → 2 ^ k ≤ 8 → buf % 8 ≡ 0 → (q : ℕ) × (buf ≡ q * 2 ^ k)
small_power zero buf le is = (buf, omega arith)
small_power (suc zero) buf le is = (buf / 2, omega arith)
small_power (suc (suc zero)) buf le is = (buf / 4, omega arith)
small_power (suc (suc (suc zero))) buf le is = (buf / 8, omega arith)
small_power (suc (suc (suc (suc k)))) buf le is = absurd (
    omega (
      arith,
      pow_pos k,
      pow-suc 2 k,
      pow-suc 2 (suc k),
      pow-suc 2 (suc (suc k)),
      pow-suc 2 (suc (suc (suc k))),
    ))

fresh_place :
    (page_size buf size k : ℕ)
    → k < 64
    → IsOpen page_size buf 0
    → buf % 8 ≡ 0
    → IsPacked page_size size (2 ^ k)
    → (s : ℕ) × Fits page_size buf 0 size (2 ^ k) s
fresh_place page_size buf size k lt is even (le, inl small) =
    let (q, multiple) = small_power k buf small even in
    (0, record { past = omega arith; inside = omega arith; multiple = q; aligned = omega arith })
fresh_place page_size buf size k lt is even (le, inr padded) =
    let (r, (q, multiple, above, near), _, _) =
      align_up-Ceiling k (buf + 0) lt (omega (arith, is.in_space)) in
    (
      r - buf,
      record { past = omega arith; inside = omega arith; multiple = q; aligned = omega arith },
    )

-- A page that was just opened has room for every request that the packed path takes.
pub fit-fresh :
    (page_size buf size k : ℕ)
    → k < 64
    → IsOpen page_size buf 0
    → buf % 8 ≡ 0
    → IsPacked page_size size (2 ^ k)
    → (offset : ℕ) × (fit page_size buf 0 size (2 ^ k) ≡ some offset)
fit-fresh page_size buf size k lt is even packed =
    let (s, fits) = fresh_place page_size buf size k lt is even packed in
    let (offset, found, _) = fit_complete page_size buf 0 size k s lt is fits in (offset, found)
