-- ===== src/Chunk/Pages.antt =====
-- src/chunk.rs: the buffer behind an `Arc`, as handles come and go.
use paged_alloc.Base.{
  ℕ, suc, ◌-◌, ◌≤◌, ◌≡◌, ◌≢◌, refl, ap, ◌∙◌, inl, inr, Option-cases, some, List, [], ◌∷◌, ==_cases,
  arith,
}
use paged_alloc.Alloc.{dealloc}
use paged_alloc.Chunk.{
  State, ArcPage, PackedPage, find_arc, set_refs, remove_arc, clone_arc, drop_arc, drop_packed,
}
use paged_alloc.Chunk.Arcs.{refs_of, Release-cases}
use paged_alloc.Chunk.Carved.{page_of}

pub find_arc-page :
    (i : ℕ) (arcs : List ArcPage) (page : PackedPage)
    → page_of i arcs ≡ some page
    → (a : ArcPage) × (find_arc i arcs ≡ some a) × (a.page ≡ page) × (a.refs ≡ refs_of i arcs)
unfolding find_arc
find_arc-page i [] page e = cc
find_arc-page i (a ∷ arcs) page e = elim (==_cases a.id i) [
  | inl (hit, same) ↦ (a, rw hit refl, ground arith, rw hit refl)
  | inr (miss, _) ↦
      let (b, found, same, refs) = find_arc-page i arcs page (ground arith) in
      (b, rw miss found, same, rw miss refs)
]

refs_of_found :
    (i : ℕ) (arcs : List ArcPage) (a : ArcPage) → find_arc i arcs ≡ some a → refs_of i arcs ≡ a.refs
unfolding find_arc
refs_of_found i [] a e = cc
refs_of_found i (b ∷ arcs) a e = elim (==_cases b.id i) [
  | inl (hit, _) ↦ ground arith
  | inr (miss, _) ↦ ground (arith, refs_of_found i arcs a)
]

pub page_of-set : (i n j : ℕ) (arcs : List ArcPage) → page_of j (set_refs i n arcs) ≡ page_of j arcs
unfolding set_refs
page_of-set i n j [] = refl
page_of-set i n j (a ∷ arcs) = elim (==_cases a.id i) [
  | inl (hit, _) ↦ rw hit refl
  | inr (miss, _) ↦ rw (miss, page_of-set i n j arcs) refl
]

pub page_of-remove :
    (i j : ℕ) (arcs : List ArcPage) → i ≢ j → page_of j (remove_arc i arcs) ≡ page_of j arcs
unfolding remove_arc
page_of-remove i j [] ne = refl
page_of-remove i j (a ∷ arcs) ne = elim (==_cases a.id i) [
  | inl (hit, same) ↦ ground arith
  | inr (miss, _) ↦ rw (miss, page_of-remove i j arcs ne) refl
]

pub page_of-clone_arc : (i j : ℕ) (w : State) → page_of j (clone_arc i w).arcs ≡ page_of j w.arcs
unfolding clone_arc
page_of-clone_arc i j w = elim (Option-cases (find_arc i w.arcs)) [
  | inl e ↦ rw (e, clone_arc) refl
  | inr (a, e) ↦ rw (e, clone_arc) (page_of-set i (suc a.refs) j w.arcs)
]

drop_packed-arcs : (page : PackedPage) (w : State) → (drop_packed page w).arcs ≡ w.arcs
unfolding drop_packed
drop_packed-arcs page w = elim (Release-cases page.release) [
  | inl is ↦ rw (is, drop_packed) refl
  | inr (l, is) ↦ elim (Option-cases (dealloc page.buf l w.mem)) [
    | inl e ↦ rw (is, e, drop_packed) refl
    | inr (m, e) ↦ rw (is, e, drop_packed) refl
  ]
]

pub page_of-drop_arc :
    (i j : ℕ) (w : State)
    → (i ≡ j → 2 ≤ refs_of i w.arcs)
    → page_of j (drop_arc i w).arcs ≡ page_of j w.arcs
unfolding drop_arc
page_of-drop_arc i j w other = elim (Option-cases (find_arc i w.arcs)) [
  | inl e ↦ rw (e, drop_arc) refl
  | inr (a, e) ↦ elim (==_cases a.refs 1) [
    | inl (last, one) ↦
        rw (e, last, drop_arc)
          (ap (page_of j) (drop_packed-arcs a.page (record w { arcs = remove_arc i w.arcs }))
            ∙ page_of-remove i j w.arcs
                (λ same. ground (arith, other same, refs_of_found i w.arcs a e)))
    | inr (more, _) ↦ rw (e, more, drop_arc) (page_of-set i (a.refs - 1) j w.arcs)
  ]
]

drop_packed-current :
    (page : PackedPage) (w : State) → (drop_packed page w).pool.current ≡ w.pool.current
unfolding drop_packed
drop_packed-current page w = elim (Release-cases page.release) [
  | inl is ↦ rw (is, drop_packed) refl
  | inr (l, is) ↦ elim (Option-cases (dealloc page.buf l w.mem)) [
    | inl e ↦ rw (is, e, drop_packed) refl
    | inr (m, e) ↦ rw (is, e, drop_packed) refl
  ]
]

pub drop_arc-current : (i : ℕ) (w : State) → (drop_arc i w).pool.current ≡ w.pool.current
unfolding drop_arc
drop_arc-current i w = elim (Option-cases (find_arc i w.arcs)) [
  | inl e ↦ rw (e, drop_arc) refl
  | inr (a, e) ↦ elim (==_cases a.refs 1) [
    | inl (last, one) ↦
        rw (e, last, drop_arc)
          (drop_packed-current a.page (record w { arcs = remove_arc i w.arcs }))
    | inr (more, _) ↦ rw (e, more, drop_arc) refl
  ]
]

pub clone_arc-current : (i : ℕ) (w : State) → (clone_arc i w).pool.current ≡ w.pool.current
unfolding clone_arc
clone_arc-current i w = elim (Option-cases (find_arc i w.arcs)) [
  | inl e ↦ rw (e, clone_arc) refl
  | inr (a, e) ↦ rw (e, clone_arc) refl
]

-- As long as another handle is left, a drop leaves memory alone.
pub drop_arc-mem : (i : ℕ) (w : State) → 2 ≤ refs_of i w.arcs → (drop_arc i w).mem ≡ w.mem
unfolding drop_arc
drop_arc-mem i w other = elim (Option-cases (find_arc i w.arcs)) [
  | inl e ↦ rw (e, drop_arc) refl
  | inr (a, e) ↦ elim (==_cases a.refs 1) [
    | inl (last, one) ↦ absurd (omega (arith, refs_of_found i w.arcs a e))
    | inr (more, _) ↦ rw (e, more, drop_arc) refl
  ]
]

pub clone_arc-mem : (i : ℕ) (w : State) → (clone_arc i w).mem ≡ w.mem
unfolding clone_arc
clone_arc-mem i w = elim (Option-cases (find_arc i w.arcs)) [
  | inl e ↦ rw (e, clone_arc) refl
  | inr (a, e) ↦ rw (e, clone_arc) refl
]
