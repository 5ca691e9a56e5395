-- ===== src/World.antt =====
-- What a call into the crate can change: the pool, memory, and the counters of every
-- tenant; and how such a call ends.
use paged_alloc.Base.{◌≡◌, refl, Bool, true, false, Option, none, some}
use paged_alloc.Memory.{Bytes}
use paged_alloc.Alloc.{Memory}
use paged_alloc.Tenant.{Tenants}
use paged_alloc.Pool.{PagePool}

pub record World : Type 0 where
  pub pool : PagePool
  pub mem : Memory
  pub tenants : Tenants

abbrev pub with_bytes : World → Bytes → World
with_bytes w bytes = record w { mem = record w.mem { bytes = bytes } }

-- How a call ends, over a state `W`. A panic keeps the state that unwinding leaves behind.
-- `aborted` is a failed allocation that ends the process; a loop that is given too little fuel is
-- `out_of_fuel`.
pub data Run (W A : Type 0) : Type 0 where
  returned : A → W → Run W A
  panicked : W → Run W A
  aborted : Run W A
  out_of_fuel : Run W A

abbrev pub Act : Type 0 → Type 0 → Type 0
Act W A = W → Run W A

abbrev pub pure : {W A : Type 0} → A → Act W A
pure = returned

abbrev pub panic : {W A : Type 0} → Act W A
panic = panicked

-- An allocation that failed, and unwinds or ends the process.
abbrev pub fail : {W A : Type 0} → Bool → Act W A
fail true w = panicked w
fail false w = aborted

-- `Option::expect`.
abbrev pub expect : {W A : Type 0} → Option A → Act W A
expect none = panic
expect (some a) = pure a

module _ {W A B : Type 0} where
  abbrev pub and_then : Run W A → (A → Act W B) → Run W B
  and_then (returned a w) f = f a w
  and_then (panicked w) f = panicked w
  and_then aborted f = aborted
  and_then out_of_fuel f = out_of_fuel

  infixl 5 ◌>>=◌ ◌>>◌
  abbrev pub ◌>>=◌ : Act W A → (A → Act W B) → Act W B
  m >>= f = λ w. and_then (m w) f

  abbrev pub ◌>>◌ : Act W A → Act W B → Act W B
  m >> n = m >>= λ _. n

-- Nothing follows a failed allocation.
pub and_then-fail :
    {W A B : Type 0} (b : Bool) (w : W) (f : A → Act W B) → and_then (fail b w) f ≡ fail b w
and_then-fail true w f = refl
and_then-fail false w f = refl

-- `act` while a value lives whose destructor is `drop`: a panic runs it.
abbrev pub unwinding : {W A : Type 0} → (W → W) → Act W A → Act W A
unwinding drop act w = elim (act w) [
  | returned a w' ↦ returned a w'
  | panicked w' ↦ panicked (drop w')
  | aborted ↦ aborted
  | out_of_fuel ↦ out_of_fuel
]
