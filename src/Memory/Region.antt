-- ===== src/Memory/Region.antt =====
-- Address ranges, and memories that agree inside or outside one.
use Prim.Native.Nat.{min, max}
use paged_alloc.Base.{ℕ, ◌+◌, ◌≤◌, ◌<◌, ◌≡◌, ◌⊎◌, arith}

-- The ranges `[a, a + m)` and `[b, b + n)` do not meet, if both are inhabited.
abbrev pub Apart : ℕ → ℕ → ℕ → ℕ → Type 0
Apart a m b n = min (a + m) (b + n) ≤ max a b

-- `m'` agrees with `m` on `[a, a + n)`.
abbrev pub Same : ℕ → ℕ → (ℕ → ℕ) → (ℕ → ℕ) → Type 0
Same a n m m' = (q : ℕ) → a ≤ q → q < a + n → m' q ≡ m q

-- `m'` agrees with `m` at every address but those of `[a, a + n)`.
abbrev pub SameOutside : ℕ → ℕ → (ℕ → ℕ) → (ℕ → ℕ) → Type 0
SameOutside a n m m' = (q : ℕ) → (q < a) ⊎ (a + n ≤ q) → m' q ≡ m q

pub Same-of_outside :
    (a n b k : ℕ) {m m' : ℕ → ℕ} → SameOutside a n m m' → Apart a n b k → Same b k m m'
Same-of_outside a n b k same apart q lo hi = same q (omega arith)
