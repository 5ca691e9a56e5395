-- ===== src/Base/Flags.antt =====
-- Flags in one word: `a | b` of numbers whose binary digits do not meet is their sum.
use Prim.Native.Nat.{
  ℕ, zero, suc, ◌+◌, ◌*◌, ◌/◌, ◌%◌, ◌^◌, ◌≤◌, ◌<◌, max, bit_or, digits, bit_or-bitwise,
}
use mathlib.Core.Path.{◌≡◌, ap, sym, ◌∙◌}
use native.Mathlib.Nat.{pow-suc, mul_assoc}
use native.Mathlib.Omega.{arith}

-- What `bit_or` stands for, with a count of digits still to go.
abbrev either : ℕ → ℕ → ℕ → ℕ
either n x y = digits (λ b. b) max n x y

either-shifted : (n k x y : ℕ) → x ≤ n → x < 2 ^ k → either n x (y * 2 ^ k) ≡ x + y * 2 ^ k
either-shifted zero k zero y le lt = omega arith
either-shifted zero k (suc x) y le lt = absurd (omega arith)
either-shifted (suc n) k zero y le lt = omega arith
either-shifted (suc n) zero (suc x) y le lt = absurd (omega arith)
either-shifted (suc n) (suc k) (suc x) y le lt =
    let twice : y * 2 ^ suc k ≡ y * 2 ^ k * 2 =
      ap (λ (t : ℕ). y * t) (pow-suc 2 k) ∙ sym (mul_assoc y (2 ^ k) 2) in
    let half : y * 2 ^ suc k / 2 ≡ y * 2 ^ k = omega (arith, twice) in
    let even : y * 2 ^ suc k % 2 ≡ 0 = omega (arith, twice) in
    rw (half, even)
      (omega
        (arith, twice, either-shifted n k (suc x / 2) y (omega arith) (omega (arith, pow-suc 2 k))))

either-lt : (n k x y : ℕ) → x ≤ n → x < 2 ^ k → y < 2 ^ k → either n x y < 2 ^ k
either-lt zero k zero y le lt lt' = lt'
either-lt zero k (suc x) y le lt lt' = absurd (omega arith)
either-lt (suc n) k zero y le lt lt' = lt'
either-lt (suc n) zero (suc x) y le lt lt' = absurd (omega arith)
either-lt (suc n) (suc k) (suc x) y le lt lt' =
    let rest =
      either-lt n k (suc x / 2) (y / 2) (omega arith) (omega (arith, pow-suc 2 k))
        (omega (arith, pow-suc 2 k)) in
    omega (arith, pow-suc 2 k, rest)

pub bit_or-shifted : (k x y : ℕ) → x < 2 ^ k → bit_or x (y * 2 ^ k) ≡ x + y * 2 ^ k
bit_or-shifted k x y lt = bit_or-bitwise x (y * 2 ^ k) ∙ either-shifted x k x y (omega arith) lt

pub bit_or-lt : (k x y : ℕ) → x < 2 ^ k → y < 2 ^ k → bit_or x y < 2 ^ k
bit_or-lt k x y lt lt' = rw (bit_or-bitwise x y) (either-lt x k x y (omega arith) lt lt')
