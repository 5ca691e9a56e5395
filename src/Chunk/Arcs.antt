-- ===== src/Chunk/Arcs.antt =====
-- src/chunk.rs: the live `Arc<PackedPage>`s as a list, and what each operation does to their counts
-- and to the buffers that they own.
use mathlib.Core.List.{Perm, perm_middle}
use mathlib.Core.List.Perm
use paged_alloc.Base.{
  ℕ, ◌+◌, ◌<◌, ◌≡◌, ◌≢◌, refl, sym, ◌∙◌, subst, inl, inr, ◌⊎◌, some, List, [], ◌∷◌, ◌++◌, All, ◌==◌,
  ==_cases, if◌then◌else◌, arith,
}
use paged_alloc.Alloc.{Layout, Block, block}
use paged_alloc.Chunk.{
  ArcPage, PackedPage, Release, to_pool, to_heap, find_arc, set_refs, remove_arc,
}

-- How many of the handles `hs` refer to `i`.
abbrev pub count : ℕ → List ℕ → ℕ
count i [] = 0
count i (j ∷ js) = (if j == i then 1 else 0) + count i js

-- The strong count of the `Arc` numbered `i`; one that has been freed has none.
abbrev pub refs_of : ℕ → List ArcPage → ℕ
refs_of i [] = 0
refs_of i (a ∷ arcs) = if a.id == i then a.refs else refs_of i arcs

-- The pages that go back to the pool, and the blocks that go back to the global allocator.
abbrev pub own_page : PackedPage → List ℕ
own_page page = elim page.release [ to_pool ↦ page.buf ∷ [] | to_heap l ↦ [] ]

abbrev pub own_block : PackedPage → List Block
own_block page = elim page.release [ to_pool ↦ [] | to_heap l ↦ block page.buf l ∷ [] ]

abbrev pub gather : {A : Type 0} → (PackedPage → List A) → List ArcPage → List A
gather own [] = []
gather own (a ∷ arcs) = own a.page ++ gather own arcs

abbrev pub pooled : List ArcPage → List ℕ
pooled = gather own_page

abbrev pub boxed : List ArcPage → List Block
boxed = gather own_block

-- Every `Arc` has its own number.
abbrev pub Distinct : List ArcPage → Type 0
Distinct [] = Unit
Distinct (a ∷ arcs) = All (λ b. b.id ≢ a.id) arcs × Distinct arcs

pub Release-cases : (r : Release) → (r ≡ to_pool) ⊎ ((l : Layout) × (r ≡ to_heap l))
Release-cases to_pool = inl refl
Release-cases (to_heap l) = inr (l, refl)

pub find_arc-refs :
    (i : ℕ) (arcs : List ArcPage)
    → 0 < refs_of i arcs
    → (a : ArcPage) × (find_arc i arcs ≡ some a) × (a.id ≡ i) × (a.refs ≡ refs_of i arcs)
unfolding find_arc
find_arc-refs i [] pos = absurd (omega arith)
find_arc-refs i (a ∷ arcs) pos = elim (==_cases a.id i) [
  | inl (hit, same) ↦ (a, rw hit refl, same, rw hit refl)
  | inr (miss, _) ↦
      let (b, found, same, refs) = find_arc-refs i arcs (ground arith) in
      (b, rw miss found, same, rw miss refs)
]

module _ (i n : ℕ) where
  pub refs_of-set :
      (j : ℕ) (arcs : List ArcPage)
      → 0 < refs_of i arcs
      → refs_of j (set_refs i n arcs) ≡ (if i == j then n else refs_of j arcs)
  unfolding set_refs
  refs_of-set j [] pos = absurd (omega arith)
  refs_of-set j (a ∷ arcs) pos = elim (==_cases a.id i) [
    | inl (hit, same) ↦ ground arith
    | inr (miss, other) ↦ ground (arith, refs_of-set j arcs (ground arith))
  ]

  pub gather-set :
      {A : Type 0} (own : PackedPage → List A) (arcs : List ArcPage)
      → gather own (set_refs i n arcs) ≡ gather own arcs
  unfolding set_refs
  gather-set own [] = refl
  gather-set own (a ∷ arcs) = elim (==_cases a.id i) [
    | inl (hit, _) ↦ rw hit refl
    | inr (miss, _) ↦ rw (miss, gather-set own arcs) refl
  ]

-- A property of numbers that every `Arc` has, it still has after a count has changed.
module _ (P : ℕ → Type 0) (i n : ℕ) where
  pub All-set :
      (arcs : List ArcPage) → All (λ a. P a.id) arcs → All (λ a. P a.id) (set_refs i n arcs)
  unfolding set_refs
  All-set [] h = tt
  All-set (a ∷ arcs) h = elim (==_cases a.id i) [
    | inl (hit, _) ↦ rw hit h
    | inr (miss, _) ↦ rw miss (h.0, All-set arcs h.1)
  ]

module _ (P : ℕ → Type 0) (i : ℕ) where
  pub All-remove :
      (arcs : List ArcPage) → All (λ a. P a.id) arcs → All (λ a. P a.id) (remove_arc i arcs)
  unfolding remove_arc
  All-remove [] h = tt
  All-remove (a ∷ arcs) h = elim (==_cases a.id i) [
    | inl (hit, _) ↦ rw hit (h.1)
    | inr (miss, _) ↦ rw miss (h.0, All-remove arcs h.1)
  ]

pub Distinct-set : (i n : ℕ) (arcs : List ArcPage) → Distinct arcs → Distinct (set_refs i n arcs)
unfolding set_refs
Distinct-set i n [] h = tt
Distinct-set i n (a ∷ arcs) h = elim (==_cases a.id i) [
  | inl (hit, _) ↦ rw hit h
  | inr (miss, _) ↦ rw miss (All-set (λ j. j ≢ a.id) i n arcs h.0, Distinct-set i n arcs h.1)
]

pub Distinct-remove : (i : ℕ) (arcs : List ArcPage) → Distinct arcs → Distinct (remove_arc i arcs)
unfolding remove_arc
Distinct-remove i [] h = tt
Distinct-remove i (a ∷ arcs) h = elim (==_cases a.id i) [
  | inl (hit, _) ↦ rw hit (h.1)
  | inr (miss, _) ↦ rw miss (All-remove (λ j. j ≢ a.id) i arcs h.0, Distinct-remove i arcs h.1)
]

pub refs_of_none : (i : ℕ) (arcs : List ArcPage) → All (λ b. b.id ≢ i) arcs → refs_of i arcs ≡ 0
refs_of_none i [] h = refl
refs_of_none i (a ∷ arcs) h = ground (arith, refs_of_none i arcs h.1)

-- A removed `Arc` has no counts left; the others keep theirs.
pub refs_of-remove :
    (i j : ℕ) (arcs : List ArcPage)
    → Distinct arcs
    → refs_of j (remove_arc i arcs) ≡ (if i == j then 0 else refs_of j arcs)
unfolding remove_arc
refs_of-remove i j [] h = ground arith
refs_of-remove i j (a ∷ arcs) h = elim (==_cases a.id i) [
  | inl (hit, same) ↦ ground (
    arith,
    (λ (e : j ≡ a.id). subst (λ (k : ℕ). refs_of k arcs ≡ 0) (sym e) (refs_of_none a.id arcs h.0)),
  )
  | inr (miss, other) ↦ ground (arith, refs_of-remove i j arcs h.1)
]

Perm-swap : {A : Type 0} (xs ys zs : List A) → Perm (xs ++ (ys ++ zs)) (ys ++ (xs ++ zs))
Perm-swap [] ys zs = Perm.refl _
Perm-swap (x ∷ xs) ys zs =
    Perm.trans (Perm.cons x (Perm-swap xs ys zs)) (Perm.symm (perm_middle ys (xs ++ zs)))

-- Taking one `Arc` out takes out what it owns.
pub gather-remove :
    {A : Type 0} (own : PackedPage → List A) (i : ℕ) (arcs : List ArcPage) (a : ArcPage)
    → find_arc i arcs ≡ some a
    → Perm (gather own arcs) (own a.page ++ gather own (remove_arc i arcs))
unfolding find_arc remove_arc
gather-remove own i [] a found = cc
gather-remove own i (b ∷ arcs) a found = elim (==_cases b.id i) [
  | inl (hit, _) ↦
      let here : some b ≡ some a = rw (← found) (rw hit refl) in
      let at : b ≡ a = cc in
      rw hit (
        subst (λ c. Perm (own b.page ++ gather own arcs) (own c.page ++ gather own arcs)) at
          (Perm.refl _))
  | inr (miss, _) ↦
      let e =
        gather-remove own i arcs a
          ((let skip : find_arc i arcs ≡ find_arc i (b ∷ arcs) = rw miss refl in skip) ∙ found) in
      rw miss (
        Perm.trans (Perm.append_left (own b.page) e)
          (Perm-swap (own b.page) (own a.page) (gather own (remove_arc i arcs))))
]
