-- ===== src/Chunk/Drop.antt =====
-- src/chunk.rs: cloning and dropping an `Arc<PackedPage>`.
use mathlib.Core.List.{Mem, Perm, mem-cons_self, append_assoc}
use mathlib.Core.List
use mathlib.Core.List.Perm
use paged_alloc.Base.{
  ℕ, suc, ◌-◌, ◌<◌, ◌≡◌, refl, ap, sym, ◌∙◌, subst, inl, inr, some, List, [], ◌∷◌, ◌++◌, All, ◌==◌,
  ==_cases, if◌then◌else◌, arith,
}
use paged_alloc.Alloc.{Layout, Block, block, Memory}
use paged_alloc.Alloc.Sound.{dealloc_lem}
use paged_alloc.Source.{PageSource, Contract}
use paged_alloc.Pool.{PagePool}
use paged_alloc.Pool.Invariant.{IsPool}
use paged_alloc.Pool.Return.{push_return-IsPool}
use paged_alloc.Pool.Write.{used-perm}
use paged_alloc.Pool.Rest.{rest-perm, rest-Released}
use paged_alloc.Chunk.{
  State, ArcPage, PackedPage, to_pool, to_heap, find_arc, set_refs, remove_arc, clone_arc, drop_arc,
  drop_packed,
}
use paged_alloc.Chunk.Arcs.{
  Release-cases, count, refs_of, own_page, own_block, pooled, boxed, find_arc-refs, refs_of-set,
  gather-set, All-set, All-remove, Distinct-set, Distinct-remove, refs_of-remove, gather-remove,
}
use paged_alloc.Chunk.Invariant.{IsCounted}

-- Every `Arc` that is left after a change of one count is still alive.
alive-set :
    (i n : ℕ) (arcs : List ArcPage)
    → 0 < n
    → All (λ a. 0 < a.refs) arcs
    → All (λ a. 0 < a.refs) (set_refs i n arcs)
unfolding set_refs
alive-set i n [] pos h = tt
alive-set i n (a ∷ arcs) pos h = elim (==_cases a.id i) [
  | inl (hit, _) ↦ rw hit (pos, h.1)
  | inr (miss, _) ↦ rw miss (h.0, alive-set i n arcs pos h.1)
]

alive-remove :
    (i : ℕ) (arcs : List ArcPage)
    → All (λ a. 0 < a.refs) arcs
    → All (λ a. 0 < a.refs) (remove_arc i arcs)
unfolding remove_arc
alive-remove i [] h = tt
alive-remove i (a ∷ arcs) h = elim (==_cases a.id i) [
  | inl (hit, _) ↦ rw hit (h.1)
  | inr (miss, _) ↦ rw miss (h.0, alive-remove i arcs h.1)
]

own_page-pool : (page : PackedPage) → page.release ≡ to_pool → own_page page ≡ page.buf ∷ []
own_page-pool page is = rw is refl

own_block-pool : (page : PackedPage) → page.release ≡ to_pool → own_block page ≡ []
own_block-pool page is = rw is refl

own_page-heap : (page : PackedPage) (l : Layout) → page.release ≡ to_heap l → own_page page ≡ []
own_page-heap page l is = rw is refl

own_block-heap :
    (page : PackedPage) (l : Layout)
    → page.release ≡ to_heap l
    → own_block page ≡ block page.buf l ∷ []
own_block-heap page l is = rw is refl

module _ {s : PageSource} (c : Contract s) (free queued : List ℕ) (rest : List Block) where
  -- The state once the count of one `Arc` has changed.
  recount :
      (w : State) (i n : ℕ) (hs hs' : List ℕ)
      → IsCounted c w free queued rest hs
      → 0 < refs_of i w.arcs
      → 0 < n
      → ((j : ℕ) → (if i == j then n else count j hs) ≡ count j hs')
      → IsCounted c (record w { arcs = set_refs i n w.arcs }) free queued rest hs'
  recount w i n hs hs' k here pos e = record {
    pool = rw (gather-set i n own_page w.arcs, gather-set i n own_block w.arcs) k.pool;
    counts = λ j.
        refs_of-set i n j w.arcs here ∙ ap (λ (t : ℕ). if i == j then n else t) (k.counts j) ∙ e j;
    alive = alive-set i n w.arcs pos k.alive;
    distinct = Distinct-set i n w.arcs k.distinct;
    fresh = All-set (λ j. j < w.next_arc) i n w.arcs k.fresh;
    no_fault = k.no_fault;
  }

  -- A clone of a handle keeps the invariant with one handle more.
  pub clone_arc-IsCounted :
      (w : State) (i : ℕ) (hs : List ℕ)
      → IsCounted c w free queued rest hs
      → 0 < count i hs
      → IsCounted c (clone_arc i w) free queued rest (i ∷ hs)
  unfolding clone_arc
  clone_arc-IsCounted w i hs k held =
      let here : 0 < refs_of i w.arcs = omega (arith, k.counts i) in
      let (a, found, same, refs) = find_arc-refs i w.arcs here in
      rw (found, clone_arc)
        (recount w i (suc a.refs) hs (i ∷ hs) k here (omega arith)
          (λ j. ground (arith, k.counts i, (λ (e : i ≡ j). ap (λ (t : ℕ). count t hs) e))))

  -- The pool once the `Arc` numbered `i` has been taken out.
  pub taken_out :
      (w : State) (i : ℕ) (a : ArcPage)
      → find_arc i w.arcs ≡ some a
      → IsPool c w.pool.pages w.mem free queued (pooled w.arcs) (boxed w.arcs ++ rest)
      → IsPool c w.pool.pages w.mem free queued
          (own_page a.page ++ pooled (remove_arc i w.arcs))
          (own_block a.page ++ (boxed (remove_arc i w.arcs) ++ rest))
  taken_out w i a found k =
      rest-perm c w.pool.pages
        (subst (λ bs. Perm (boxed w.arcs ++ rest) bs)
          (append_assoc (own_block a.page) (boxed (remove_arc i w.arcs)) rest)
          (Perm.append_right rest (gather-remove own_block i w.arcs a found)))
        (used-perm c w.pool.pages w.mem (gather-remove own_page i w.arcs a found) k)

  dropped :
      (w : State) (i : ℕ) (hs : List ℕ)
      → IsCounted c w free queued rest (i ∷ hs)
      → count i hs ≡ 0
      → (pages : PagePool) (m : Memory) (queued' : List ℕ)
      → IsPool c pages m free queued'
          (pooled (remove_arc i w.arcs))
          (boxed (remove_arc i w.arcs) ++ rest)
      → IsCounted c
          (record w { pool = record w.pool { pages = pages }; mem = m; arcs = remove_arc i w.arcs })
          free
          queued'
          rest
          hs
  dropped w i hs k none_left pages m queued' left = record {
    pool = left;
    counts = λ j.
        refs_of-remove i j w.arcs k.distinct
        ∙ ap (λ (t : ℕ). if i == j then 0 else t) (k.counts j)
        ∙ ground (arith, (λ (e : i ≡ j). subst (λ (t : ℕ). count t hs ≡ 0) e none_left));
    alive = alive-remove i w.arcs k.alive;
    distinct = Distinct-remove i w.arcs k.distinct;
    fresh = All-remove (λ j. j < w.next_arc) i w.arcs k.fresh;
    no_fault = k.no_fault;
  }

  -- The last handle drops what it refers to.
  drop_last :
      (w : State) (i : ℕ) (hs : List ℕ) (a : ArcPage)
      → find_arc i w.arcs ≡ some a
      → IsCounted c w free queued rest (i ∷ hs)
      → count i hs ≡ 0
      → (queued' : List ℕ) × IsCounted c
          (drop_packed a.page (record w { arcs = remove_arc i w.arcs }))
          free
          queued'
          rest
          hs
  unfolding drop_packed
  drop_last w i hs a found k none_left = elim (Release-cases a.page.release) [
    | inl is ↦
        let left = taken_out w i a found k.pool in
        let mine =
          rest-perm c w.pool.pages
            (subst
              (λ bs.
                Perm (bs ++ (boxed (remove_arc i w.arcs) ++ rest))
                  (boxed (remove_arc i w.arcs) ++ rest))
              (sym (own_block-pool a.page is)) (Perm.refl _))
            (used-perm c w.pool.pages w.mem
              (subst
                (λ ps.
                  Perm (ps ++ pooled (remove_arc i w.arcs))
                    (a.page.buf ∷ pooled (remove_arc i w.arcs)))
                (sym (own_page-pool a.page is)) (Perm.refl _))
              left) in
        rw is (
          a.page.buf ∷ queued,
          dropped w i hs k none_left _ _ _ (
              push_return-IsPool c w.pool.pages w.mem a.page.buf free queued
                (pooled (remove_arc i w.arcs)) (boxed (remove_arc i w.arcs) ++ rest) mine),
        )
    | inr (l, is) ↦
        let left = taken_out w i a found k.pool in
        let mine =
          rest-perm c w.pool.pages
            (subst
              (λ bs.
                Perm (bs ++ (boxed (remove_arc i w.arcs) ++ rest))
                  (block a.page.buf l ∷ (boxed (remove_arc i w.arcs) ++ rest)))
              (sym (own_block-heap a.page l is)) (Perm.refl _))
            (used-perm c w.pool.pages w.mem
              (subst
                (λ ps. Perm (ps ++ pooled (remove_arc i w.arcs)) (pooled (remove_arc i w.arcs)))
                (sym (own_page-heap a.page l is)) (Perm.refl _))
              left) in
        let (m, did, gone) =
          dealloc_lem a.page.buf l w.mem
            ((Perm.mem_iff mine.owns.blocks).1 (List.mem-append_right _ mem-cons_self)) in
        rw (is, did, drop_packed)
          (
            queued,
            dropped w i hs k none_left w.pool.pages m queued
                (rest-Released c w.pool.pages (block a.page.buf l) gone mine),
          )
  ]

  -- Dropping one of the handles on a buffer keeps the invariant with one handle less: counts stay
  -- exact, no release is undefined, and a buffer whose last handle dropped is on the return queue
  -- or back with the global allocator.
  pub drop_arc-IsCounted :
      (w : State) (i : ℕ) (hs : List ℕ)
      → IsCounted c w free queued rest (i ∷ hs)
      → (queued' : List ℕ) × IsCounted c (drop_arc i w) free queued' rest hs
  unfolding drop_arc
  drop_arc-IsCounted w i hs k =
      let here : 0 < refs_of i w.arcs = ground (arith, k.counts i) in
      let (a, found, same, refs) = find_arc-refs i w.arcs here in
      let total : a.refs ≡ suc (count i hs) = ground (arith, k.counts i) in
      elim (==_cases a.refs 1) [
        | inl (last, one) ↦ rw (found, last, drop_arc) (drop_last w i hs a found k (omega arith))
        | inr (more, many) ↦
            rw (found, more, drop_arc)
              (
                queued,
                recount w i (a.refs - 1) (i ∷ hs) hs k here (omega arith)
                    (λ j. ground (arith, (λ (e : i ≡ j). ap (λ (t : ℕ). count t hs) e))),
              )
      ]
