-- ===== src/Chunk/Align.antt =====
-- src/chunk.rs: `align_up` and multiples of a power of two.
use native.Mathlib.Nat.{pow-suc, pow-le-pow_right}
use native.Mathlib.Omega.{arith}
use paged_alloc.Base.{
  ℕ, zero, suc, ◌+◌, ◌-◌, ◌*◌, ◌%◌, ◌^◌, ◌≤◌, ◌<◌, ◌≡◌, ap, ◌∙◌, subst, inl, inr, leb_cases, word,
  wrapping_add, wrapping_sub,
}
use paged_alloc.Base.Bits.{bit_and-Floor, pow_pos}
use paged_alloc.Chunk.{align_up}

-- `r` is the least multiple of `a` from `x` on.
abbrev pub Ceiling : ℕ → ℕ → ℕ → Type 0
Ceiling a x r = (q : ℕ) × (r ≡ q * a) × (x ≤ r) × (r < x + a)

-- A multiple of `a` that lies less than `a` above another lies at most as high.
pub multiple_le : (a p q : ℕ) → p * a < q * a + a → p * a ≤ q * a
multiple_le a p q lt = elim (leb_cases p q) [
  | inl (_, le) ↦ grind arith
  | inr (_, gt) ↦ grind arith
]

multiple_zero : (a q : ℕ) → q * a < a → q * a ≡ 0
multiple_zero a zero lt = omega arith
multiple_zero a (suc q) lt = absurd (grind arith)

power_bound : (k : ℕ) → k < 64 → 2 ^ k * 2 ≤ word
power_bound k lt =
    let le : 2 ^ suc k ≤ 2 ^ 64 = pow-le-pow_right {n = 2} (omega arith) {i = suc k} lt in
    omega (arith, le, pow-suc 2 k)

-- The mask that `align_up` clears with.
mask : (k : ℕ) → k < 64 → word - 1 - wrapping_sub (2 ^ k) 1 ≡ 2 ^ 64 - 2 ^ k
mask k lt = omega (arith, pow_pos k, power_bound k lt)

align_up-plain :
    (k value : ℕ) → k < 64 → value + 2 ^ k ≤ word → Ceiling (2 ^ k) value (align_up value (2 ^ k))
unfolding align_up
align_up-plain k value lt fits =
    let pos = pow_pos k in
    let added : wrapping_sub (wrapping_add value (2 ^ k)) 1 ≡ value + (2 ^ k - 1) = omega arith in
    let (q, is, below, above) =
      bit_and-Floor k 64 (value + (2 ^ k - 1)) (omega arith) (omega arith) in
    rw (added, mask k lt) (q, is, omega arith, omega arith)

align_up_zero : (k : ℕ) → k < 64 → align_up 0 (2 ^ k) ≡ 0
align_up_zero k lt =
    let (q, is, _, near) = align_up-plain k 0 lt (omega (arith, power_bound k lt)) in
    is ∙ multiple_zero (2 ^ k) q (omega arith)

-- Less than an alignment below the end of memory, the sum wraps and leaves no multiple but 0.
align_up-wrapped :
    (k value : ℕ) → k < 64 → value < word → word < value + 2 ^ k → align_up value (2 ^ k) ≡ 0
unfolding align_up
align_up-wrapped k value lt small past =
    let pos = pow_pos k in
    let bound = power_bound k lt in
    let rest = value + (2 ^ k - 1) - word in
    let added : wrapping_sub (wrapping_add value (2 ^ k)) 1 ≡ rest = omega (arith, bound) in
    let (q, is, below, above) = bit_and-Floor k 64 rest (omega arith) (omega (arith, bound)) in
    rw (added, mask k lt) (is ∙ multiple_zero (2 ^ k) q (omega arith))

power_sum : (j k : ℕ) → 2 ^ (j + k) ≡ 2 ^ j * 2 ^ k
power_sum zero k = let same : 0 + k ≡ k = omega arith in ap (λ (n : ℕ). 2 ^ n) same ∙ omega arith
power_sum (suc j) k =
    let same : suc j + k ≡ suc (j + k) = omega arith in
    ap (λ (n : ℕ). 2 ^ n) same ∙ grind (arith, pow-suc 2 (j + k), pow-suc 2 j, power_sum j k)

word_multiple : (k : ℕ) → k < 64 → word ≡ 2 ^ (64 - k) * 2 ^ k
word_multiple k lt =
    let all : 64 - k + k ≡ 64 = omega arith in
    subst (λ (n : ℕ). 2 ^ n ≡ 2 ^ (64 - k) * 2 ^ k) all (power_sum (64 - k) k)

-- `align_up` to a power of two gives the least multiple from the value on, modulo 2^64: it is exact
-- on every word, also where its sum wraps.
pub align_up-Ceiling :
    (k value : ℕ)
    → k < 64
    → value ≤ word
    → (r : ℕ) × Ceiling (2 ^ k) value r × (r ≤ word) × (align_up (value % word) (2 ^ k) ≡ r % word)
align_up-Ceiling k value lt le = elim (leb_cases (value + 2 ^ k) word) [
  | inl (_, fits) ↦
      let (q, is, above, near) = align_up-plain k value lt fits in
      let pos = pow_pos k in
      let same : value % word ≡ value = omega arith in
      (
        align_up value (2 ^ k),
        (q, is, above, near),
        omega arith,
        ap (λ (v : ℕ). align_up v (2 ^ k)) same ∙ omega arith,
      )
  | inr (_, past) ↦ (
    word,
    (2 ^ (64 - k), word_multiple k lt, le, past),
    omega arith,
    elim (leb_cases word value) [
      | inl (_, end) ↦
          let same : value % word ≡ 0 = omega arith in
          ap (λ (v : ℕ). align_up v (2 ^ k)) same ∙ align_up_zero k lt
      | inr (_, inside) ↦
          let same : value % word ≡ value = omega arith in
          ap (λ (v : ℕ). align_up v (2 ^ k)) same ∙ align_up-wrapped k value lt inside past
    ],
  )
]
