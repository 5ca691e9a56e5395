-- ===== src/Base/Word.antt =====
-- Unsigned machine words: `u64` and `usize` hold 64 bits, `u32` holds 32. Atomic counters wrap
-- (`fetch_add`, `fetch_sub`), and so do `+` and `-` in a release build.
use Prim.Native.Nat.{ℕ, zero, suc, ◌+◌, ◌-◌, ◌%◌, ◌^◌, ◌<◌, min}
use mathlib.Core.Path.{◌≡◌, refl, ap}
use mathlib.Core.Bool.{Bool, true, false, ◌||◌}
use mathlib.Core.Logic.{inl, inr}
use native.Mathlib.Omega.{arith}
use paged_alloc.Base.Tests.{◌==◌, ==_cases}

abbrev pub word : ℕ
word = 2 ^ 64

-- `a + b` of `u64`, and the value that `fetch_add` stores.
abbrev pub wrapping_add : ℕ → ℕ → ℕ
wrapping_add a b = (a + b) % word

abbrev pub wrapping_sub : ℕ → ℕ → ℕ
wrapping_sub a b = (a + (word - b % word)) % word

-- `usize::saturating_add`.
abbrev pub saturating_add : ℕ → ℕ → ℕ
saturating_add a b = min (a + b) (word - 1)

-- `x as u32`.
abbrev pub as_u32 : ℕ → ℕ
as_u32 a = a % 2 ^ 32

-- `x` is one of the first `n` powers of two.
unfoldable pub is_power_below : ℕ → ℕ → Bool
is_power_below zero x = false
is_power_below (suc k) x = x == 2 ^ k || is_power_below k x

-- `usize::is_power_of_two`.
unfoldable pub is_power_of_two : ℕ → Bool
is_power_of_two x = is_power_below 64 x

pub exponent_below : (n x : ℕ) → is_power_below n x ≡ true → (k : ℕ) × (k < n) × (x ≡ 2 ^ k)
unfolding is_power_below
exponent_below zero x h = cc
exponent_below (suc n) x h = elim (==_cases x (2 ^ n)) [
  | inl (_, e) ↦ (n, omega arith, e)
  | inr (miss, _) ↦ let (k, lt, e) = exponent_below n x (ground arith) in (k, omega arith, e)
]

power_below : (n k : ℕ) → k < n → is_power_below n (2 ^ k) ≡ true
unfolding is_power_below
power_below zero k lt = absurd (omega arith)
power_below (suc n) k lt = elim (==_cases (2 ^ k) (2 ^ n)) [
  | inl (hit, _) ↦ rw hit refl
  | inr (miss, ne) ↦ elim (==_cases k n) [
    | inl (_, same) ↦ absurd (ne (ap (λ (e : ℕ). 2 ^ e) same))
    | inr (_, other) ↦ rw miss (power_below n k (omega arith))
  ]
]

-- Every power of two that is a word is accepted.
pub is_power_of_two-power : (k : ℕ) → k < 64 → is_power_of_two (2 ^ k) ≡ true
unfolding is_power_of_two
is_power_of_two-power k lt = power_below 64 k lt
