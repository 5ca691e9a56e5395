-- ===== src/Queue/Progress.antt =====
-- How long a call of `push_return` (src/pool.rs) takes that no other thread disturbs.
use paged_alloc.Base.{
  ℕ, suc, ap, ◌⊎◌, ◌≤◌, ◌≡◌, refl, sym, List, [], ◌∷◌, inl, inr, ==_cases, arith, ◌+◌, ◌*◌, ◌==◌,
  if◌then◌else◌, ==_refl, true, ◌∙◌,
}
use paged_alloc.Alloc.{Memory}
use paged_alloc.Pool.{PagePool, link}
use paged_alloc.Queue.{
  Phase, load, linking, swapping, uncounting, counting, Push, Access, read_head, write_next,
  exchange, retry, uncount, count_free,
}
use paged_alloc.Queue.Alone.{Alone, last, then_on, from_uncounting}

pub accesses :
    {p : ℕ} {pool' : PagePool} {m' : Memory} {pool : PagePool} {m : Memory} {phase : Phase}
    → Alone p pool' m' pool m phase
    → ℕ
accesses (last a) = 1
accesses (then_on a r) = suc (accesses r)

Ends : ℕ → PagePool → Memory → Phase → ℕ → Type 0
Ends p pool m phase k =
    (pool' : PagePool) × (m' : Memory) × (r : Alone p pool' m' pool m phase) × (accesses r ≡ k)

from_load : (p : ℕ) (pool : PagePool) (m : Memory) → Ends p pool m load 5
unfolding Ends accesses
from_load p pool m = (
  _,
  _,
  then_on read_head (then_on write_next (then_on (exchange refl) (from_uncounting p _ _))),
  refl,
)

from_swapping :
    (p : ℕ) (pool : PagePool) (m : Memory) (head : ℕ)
    → Ends p pool m (swapping head) 3 ⊎ Ends p pool m (swapping head) 6
unfolding Ends accesses
from_swapping p pool m head = elim (==_cases pool.shared.return_head head) [
  | inl (_, same) ↦ inl (_, _, then_on (exchange same) (from_uncounting p _ _), refl)
  | inr _ ↦ let (pool', m', r, e) = from_load p pool m in inr (pool', m', then_on retry r, ap suc e)
]

-- Some of the accesses of one call in a row, with nobody else in between: the call may still be under
-- way, or has returned.
pub data Undisturbed (p : ℕ) : PagePool → Memory → Phase → Type 0 where
  paused : {pool : PagePool} {m : Memory} {phase : Phase} → Undisturbed p pool m phase
  returns :
      {pool : PagePool} {m : Memory} {phase : Phase} {pool' : PagePool} {m' : Memory}
      → Access pool m p phase pool' m' []
      → Undisturbed p pool m phase
  goes_on :
      {pool : PagePool} {m : Memory} {phase : Phase} {pool' : PagePool} {m' : Memory}
      {phase' : Phase}
      → Access pool m p phase pool' m' (record { page = p; phase = phase' } ∷ [])
      → Undisturbed p pool' m' phase'
      → Undisturbed p pool m phase

abbrev pub length_of :
    {p : ℕ} {pool : PagePool} {m : Memory} {phase : Phase} → Undisturbed p pool m phase → ℕ
length_of paused = 0
length_of (returns a) = 1
length_of (goes_on a r) = suc (length_of r)

-- A compare-exchange that fails although the head is the one that was read.
abbrev spurious_one :
    {pool : PagePool} {m : Memory} {p : ℕ} {phase : Phase} {pool' : PagePool} {m' : Memory}
    {next : List Push}
    → Access pool m p phase pool' m' next
    → ℕ
spurious_one {pool} (retry {head}) = if pool.shared.return_head == head then 1 else 0
spurious_one read_head = 0
spurious_one write_next = 0
spurious_one (exchange e) = 0
spurious_one uncount = 0
spurious_one count_free = 0

abbrev pub spurious :
    {p : ℕ} {pool : PagePool} {m : Memory} {phase : Phase} → Undisturbed p pool m phase → ℕ
spurious paused = 0
spurious (returns a) = spurious_one a
spurious (goes_on a r) = spurious_one a + spurious r

-- The most that is left to do if no exchange fails spuriously.
abbrev left_of : PagePool → Phase → ℕ
left_of pool load = 5
left_of pool (linking head) = if pool.shared.return_head == head then 4 else 7
left_of pool (swapping head) = if pool.shared.return_head == head then 3 else 6
left_of pool uncounting = 2
left_of pool counting = 1

abbrev left_next : PagePool → List Push → ℕ
left_next pool [] = 0
left_next pool (f ∷ fs) = left_of pool f.phase

one_more :
    {pool : PagePool} {m : Memory} {p : ℕ} {phase : Phase} {pool' : PagePool} {m' : Memory}
    {next : List Push} (a : Access pool m p phase pool' m' next)
    → suc (left_next pool' next) ≤ left_of pool phase + 3 * spurious_one a
one_more {pool} read_head = rw (==_refl pool.shared.return_head) (omega arith)
one_more {pool} (write_next {head}) = ground arith
one_more {pool} (exchange {head} e) =
    let hit : (pool.shared.return_head == head) ≡ true =
      ap (λ (h : ℕ). pool.shared.return_head == h) (sym e) ∙ ==_refl pool.shared.return_head in
    rw hit (omega arith)
one_more {pool} (retry {head}) = ground arith
one_more uncount = omega arith
one_more count_free = omega arith

at_most :
    {p : ℕ} {pool : PagePool} {m : Memory} {phase : Phase} (r : Undisturbed p pool m phase)
    → length_of r ≤ left_of pool phase + 3 * spurious r
at_most paused = omega arith
at_most (returns a) = omega (arith, one_more a)
at_most (goes_on a r) = omega (arith, one_more a, at_most r)

left_small : (pool : PagePool) (phase : Phase) → left_of pool phase ≤ 7
left_small pool load = omega arith
left_small pool (linking head) = ground arith
left_small pool (swapping head) = ground arith
left_small pool uncounting = omega arith
left_small pool counting = omega arith

-- A run to the end with no spurious failure.
abbrev pub CanReturn : ℕ → PagePool → Memory → Phase → Type 0
CanReturn p pool m phase =
    (pool' : PagePool) × (m' : Memory) × (r : Alone p pool' m' pool m phase) × (accesses r ≤ 7)

comes_back : (p : ℕ) (pool : PagePool) (m : Memory) (phase : Phase) → CanReturn p pool m phase
unfolding Ends accesses
comes_back p pool m load =
    let (pool', m', r, e) = from_load p pool m in (pool', m', r, omega (arith, e))
comes_back p pool m (linking head) = elim (from_swapping p pool (link m p head) head) [
  | inl (pool', m', r, e) ↦ (pool', m', then_on write_next r, omega (arith, e))
  | inr (pool', m', r, e) ↦ (pool', m', then_on write_next r, omega (arith, e))
]
comes_back p pool m (swapping head) = elim (from_swapping p pool m head) [
  | inl (pool', m', r, e) ↦ (pool', m', r, omega (arith, e))
  | inr (pool', m', r, e) ↦ (pool', m', r, omega (arith, e))
]
comes_back p pool m uncounting = (_, _, from_uncounting p pool m, omega arith)
comes_back p pool m counting = (_, _, last count_free, omega arith)

-- From wherever it stands, a call of `push_return` that no other thread disturbs never makes more
-- than seven accesses, and three more for each compare-exchange that fails spuriously; and some
-- seven accesses or fewer take it to its return.
pub finishes_alone :
    (p : ℕ) (pool : PagePool) (m : Memory) (phase : Phase)
    → ((r : Undisturbed p pool m phase) → length_of r ≤ 7 + 3 * spurious r)
      × CanReturn p pool m phase
finishes_alone p pool m phase =
    ((λ r. omega (arith, at_most r, left_small pool phase)), comes_back p pool m phase)
