-- ===== src/Source/Touch.antt =====
-- The loop of `MmapSource::prefault` (src/mmap.rs): one byte for every page of the operating system.
use native.Mathlib.Nat.{suc-mul}
use paged_alloc.Base.{
  ge→ltb, ℕ, zero, suc, ◌+◌, ◌*◌, ◌≤◌, ◌<◌, ◌≡◌, ◌≢◌, refl, ◌∙◌, ap, subst, sym, inl, inr, Option,
  none, some, ltb, if◌then◌else◌, wrapping_add, word, arith, [], ◌∷◌, ltb_cases,
}
use paged_alloc.Memory.{write_bytes, read_bytes}
use paged_alloc.Memory.Region.{SameOutside}
use paged_alloc.Memory.Copy.{read-write_bytes, write_bytes_outside}
use paged_alloc.Alloc.{Memory}

-- `write_volatile` of a zero byte.
abbrev pub clear_byte : ℕ → Memory → Memory
clear_byte a m = record m { bytes = write_bytes m.bytes a (0 ∷ []) }

-- `none` when the fuel runs out.
unfoldable pub touch : ℕ → (page_size os_page base offset : ℕ) → Memory → Option Memory
touch zero page_size os_page base offset m = none
touch (suc fuel) page_size os_page base offset m =
    let rest =
      touch fuel page_size os_page base (wrapping_add offset os_page)
        (clear_byte (base + offset) m) in
    if ltb offset page_size then rest else some m

-- From `offset` on, the first byte of each page of `g` bytes below `n` is cleared, and nothing else
-- has changed.
pub record Touched (n g base offset : ℕ) (m m' : Memory) : Type 0 where
  pub live : m'.live ≡ m.live
  pub cleared : (k : ℕ) → offset + k * g < n → m'.bytes (base + (offset + k * g)) ≡ 0
  pub same :
      (q : ℕ)
      → ((k : ℕ) → offset + k * g < n → q ≢ base + (offset + k * g))
      → m'.bytes q ≡ m.bytes q

written_byte : (m : Memory) (a : ℕ) → (clear_byte a m).bytes a ≡ 0
unfolding read_bytes
written_byte m a =
    let back : ((clear_byte a m).bytes a ∷ []) ≡ 0 ∷ [] = read-write_bytes m.bytes a (0 ∷ []) in cc

pub other_byte : (m : Memory) (a q : ℕ) → q ≢ a → (clear_byte a m).bytes q ≡ m.bytes q
other_byte m a q ne = write_bytes_outside m.bytes a (0 ∷ []) q (omega arith)

module _ (n g base offset : ℕ) (m m' : Memory) where
  Touched-end : n ≤ offset → m' ≡ m → Touched n g base offset m m'
  Touched-end past e = record {
    live = ap Memory.live e;
    cleared = λ k lt. absurd (omega arith);
    same = λ q miss. ap (λ t. Memory.bytes t q) e;
  }

  -- The byte at `offset`, and then the pages that follow.
  Touched-step :
      0 < g
      → offset < n
      → Touched n g base (offset + g) (clear_byte (base + offset) m) m'
      → Touched n g base offset m m'
  Touched-step above lt t = record {
    live = t.live;
    cleared = cleared;
    same = λ q miss.
        t.same q
          (λ k below e. miss (suc k) (omega (arith, suc-mul k g)) (omega (arith, suc-mul k g, e)))
        ∙ other_byte m (base + offset) q (λ e. miss 0 (omega arith) (omega (arith, e)));
  }
    where
      cleared : (k : ℕ) → offset + k * g < n → m'.bytes (base + (offset + k * g)) ≡ 0
      cleared zero below =
          let at : base + (offset + 0 * g) ≡ base + offset = omega arith in
          rw at
            (t.same (base + offset) (λ k lt' e. omega (arith, e)) ∙ written_byte m (base + offset))
      cleared (suc k) below =
          let at : base + (offset + suc k * g) ≡ base + (offset + g + k * g) =
            omega (arith, suc-mul k g) in
          rw at (t.cleared k (omega (arith, suc-mul k g)))

-- With fuel for the offsets that are left the loop ends.
pub touch-Touched :
    (fuel n g base offset : ℕ) (m : Memory)
    → 0 < g
    → n + g ≤ word
    → n ≤ offset + fuel
    → (m' : Memory) × (touch (suc fuel) n g base offset m ≡ some m') × Touched n g base offset m m'
unfolding touch
touch-Touched zero n g base offset m above fits enough =
    (m, rw (ge→ltb offset n (omega arith)) refl, Touched-end n g base offset m m (omega arith) refl)
touch-Touched (suc fuel) n g base offset m above fits enough = elim (ltb_cases offset n) [
  | inr (e, past) ↦ (m, rw e, Touched-end n g base offset m m past refl)
  | inl (e, lt) ↦
      let at : wrapping_add offset g ≡ offset + g = omega arith in
      let (m', is, t) =
        touch-Touched fuel n g base (offset + g) (clear_byte (base + offset) m) above fits
          (omega arith) in
      (
        m',
        rw e (
            subst (λ (o : ℕ). touch (suc fuel) n g base o (clear_byte (base + offset) m) ≡ some m')
              (sym at) is),
        Touched-step n g base offset m m' above lt t,
      )
]

-- However long it runs, it stays within the page.
pub touch_within :
    (fuel n g base offset : ℕ) (m m' : Memory)
    → touch fuel n g base offset m ≡ some m'
    → (m'.live ≡ m.live) × SameOutside base n m.bytes m'.bytes
unfolding touch
touch_within zero n g base offset m m' e = cc
touch_within (suc fuel) n g base offset m m' e = elim (ltb_cases offset n) [
  | inr (end, past) ↦ let same : m ≡ m' = ground arith in rw (← same) (refl, λ q out. refl)
  | inl (go, lt) ↦
      let (live, same) =
        touch_within fuel n g base (wrapping_add offset g) (clear_byte (base + offset) m) m'
          (ground arith) in
      (live, λ q out. same q out ∙ other_byte m (base + offset) q (omega arith))
]
