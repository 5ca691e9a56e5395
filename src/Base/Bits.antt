-- ===== src/Base/Bits.antt =====
-- Masks on machine words: `x & !(2^k - 1)` is the greatest multiple of 2^k up to x.
use Prim.Native.Nat.{
  ℕ, zero, suc, ◌+◌, ◌-◌, ◌*◌, ◌/◌, ◌%◌, ◌^◌, ◌≤◌, ◌<◌, min, bit_and, digits, bit_and-bitwise,
}
use mathlib.Core.Path.{◌≡◌, refl, ap}
use native.Mathlib.Nat.{pow-suc}
use native.Mathlib.Omega.{arith}

pub pow_pos : (k : ℕ) → 1 ≤ 2 ^ k
pow_pos zero = omega arith
pow_pos (suc k) = omega (arith, pow-suc 2 k, pow_pos k)

-- What `bit_and` stands for, with a count of digits still to go.
abbrev common : ℕ → ℕ → ℕ → ℕ
common n x m = digits (λ _. zero) min n x m

common-ones : (n w x : ℕ) → x ≤ n → x < 2 ^ w → common n x (2 ^ w - 1) ≡ x
common-ones zero w x le lt = omega arith
common-ones (suc n) w zero le lt = refl
common-ones (suc n) zero (suc x) le lt = absurd (omega arith)
common-ones (suc n) (suc w) (suc x) le lt =
    let half : (2 ^ suc w - 1) / 2 ≡ 2 ^ w - 1 = omega (arith, pow-suc 2 w, pow_pos w) in
    rw half (
      omega (
        arith,
        pow-suc 2 w,
        pow_pos w,
        common-ones n w (suc x / 2) (omega arith) (omega (arith, pow-suc 2 w)),
      ))

-- `r` is the greatest multiple of `a` up to `x`.
abbrev pub Floor : ℕ → ℕ → ℕ → Type 0
Floor a x r = (q : ℕ) × (r ≡ q * a) × (r ≤ x) × (x < r + a)

Floor-double : (a x r : ℕ) → Floor a (x / 2) r → Floor (a * 2) x (r * 2 + min (x % 2) 0)
Floor-double a x r (q, is, below, above) =
    (q, omega (arith, ap (λ (t : ℕ). t * 2) is), omega arith, omega arith)

common-Floor :
    (n k e x : ℕ) → x ≤ n → k ≤ e → x < 2 ^ e → Floor (2 ^ k) x (common n x (2 ^ e - 2 ^ k))
common-Floor n zero e x le ke lt =
    let all = common-ones n e x le lt in
    (x, omega (arith, all), omega (arith, all), omega (arith, all))
common-Floor zero (suc k) e x le ke lt =
    (0, omega arith, omega arith, omega (arith, pow_pos (suc k)))
common-Floor (suc n) (suc k) e zero le ke lt =
    (0, omega arith, omega arith, omega (arith, pow_pos (suc k)))
common-Floor (suc n) (suc k) zero (suc x) le ke lt = absurd (omega arith)
common-Floor (suc n) (suc k) (suc e) (suc x) le ke lt =
    let half : (2 ^ suc e - 2 ^ suc k) / 2 ≡ 2 ^ e - 2 ^ k =
      omega (arith, pow-suc 2 e, pow-suc 2 k) in
    let even : (2 ^ suc e - 2 ^ suc k) % 2 ≡ 0 = omega (arith, pow-suc 2 e, pow-suc 2 k) in
    rw (half, even, pow-suc 2 k)
      (Floor-double (2 ^ k) (suc x) _
        (common-Floor n k e (suc x / 2) (omega arith) (omega arith) (omega (arith, pow-suc 2 e))))

-- Clearing the low `k` of `e` bits.
pub bit_and-Floor : (k e x : ℕ) → k ≤ e → x < 2 ^ e → Floor (2 ^ k) x (bit_and x (2 ^ e - 2 ^ k))
bit_and-Floor k e x ke lt =
    rw (bit_and-bitwise x (2 ^ e - 2 ^ k)) (common-Floor x k e x (omega arith) ke lt)
