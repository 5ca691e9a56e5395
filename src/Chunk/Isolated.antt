-- ===== src/Chunk/Isolated.antt =====
-- src/chunk.rs: where the bytes of two builders or chunks lie in memory.
use mathlib.Core.List.{
  Mem, Perm, mem-cons_self, mem-append_left, mem-map_of_mem, perm_middle, append_assoc,
}
use mathlib.Core.List
use mathlib.Core.List.Perm
use paged_alloc.Base.{
  ℕ, ◌+◌, ◌≤◌, ◌≡◌, ◌≢◌, refl, ap, sym, ◌∙◌, subst, inl, inr, some, List, [], ◌∷◌, ◌++◌, map, All,
  arith, ==_cases,
}
use paged_alloc.Memory.{read_bytes}
use paged_alloc.Memory.Region.{Apart, Same-of_outside, SameOutside}
use paged_alloc.Memory.Copy.{read_bytes-Same}
use paged_alloc.Alloc.{Layout, Block, block}
use paged_alloc.Alloc.Sound.{apart_of_perm, ApartBlocks}
use paged_alloc.Source.{PageSource, Contract}
use paged_alloc.Pool.Ownership.{page}
use paged_alloc.Chunk.{State, ArcPage, PackedPage, to_pool, to_heap, remove_arc}
use paged_alloc.Chunk.Arcs.{own_page, own_block, pooled, boxed, Release-cases}
use paged_alloc.Chunk.Invariant.{IsCounted}
use paged_alloc.Chunk.Carved.{Span, Within, ApartSpans, extent, page_of}
use paged_alloc.Chunk.Pages.{find_arc-page, page_of-remove}
use paged_alloc.Chunk.Drop.{taken_out}

-- The live block that a buffer is.
abbrev pub block_of : Layout → PackedPage → Block
block_of l pg = elim pg.release [ to_pool ↦ block pg.buf l | to_heap k ↦ block pg.buf k ]

-- The blocks of a list of buffers, and what else is live.
abbrev pub blocks : Layout → List ℕ → List ℕ → List Block → List Block
blocks l at_hand ps bs = map (page l) (at_hand ++ ps) ++ bs

owned_first :
    (l : Layout) (at_hand ps : List ℕ) (bs : List Block) (pg : PackedPage)
    → Perm
        (blocks l at_hand (own_page pg ++ ps) (own_block pg ++ bs))
        (block_of l pg ∷ blocks l at_hand ps bs)
owned_first l at_hand ps bs pg = elim (Release-cases pg.release) [
  | inl is ↦ rw is (Perm.append_right bs (Perm.map (page l) (perm_middle at_hand ps)))
  | inr (k, is) ↦ rw is (perm_middle (map (page l) (at_hand ++ ps)) bs)
]

-- A buffer behind an `Arc` is among those blocks.
pub owned-mem :
    (l : Layout) (at_hand : List ℕ) (rest : List Block) (i : ℕ) (arcs : List ArcPage)
    (pg : PackedPage)
    → page_of i arcs ≡ some pg
    → Mem (block_of l pg) (blocks l at_hand (pooled arcs) (boxed arcs ++ rest))
owned-mem l at_hand rest i [] pg e = cc
owned-mem l at_hand rest i (a ∷ arcs) pg e =
    let all = blocks l at_hand (pooled arcs) (boxed arcs ++ rest) in
    let here : Mem (block_of l pg) (block_of l a.page ∷ all) = elim (==_cases a.id i) [
      | inl (hit, _) ↦
          let at : a.page ≡ pg = ground arith in
          subst (λ x. Mem (block_of l x) (block_of l a.page ∷ all)) at mem-cons_self
      | inr (miss, _) ↦ List.mem-cons_of_mem _ (owned-mem l at_hand rest i arcs pg (ground arith))
    ] in
    subst (λ bs. Mem (block_of l pg) (blocks l at_hand (own_page a.page ++ pooled arcs) bs))
      (sym (append_assoc (own_block a.page) (boxed arcs) rest))
      ((Perm.mem_iff (owned_first l at_hand (pooled arcs) (boxed arcs ++ rest) a.page)).1 here)

pub some-inj : {A : Type 0} {a b : A} → some a ≡ some b → a ≡ b
some-inj e = cc

pub size_of :
    {s : PageSource} (c : Contract s) (pg : PackedPage)
    → (block_of c.layout pg).size ≡ extent s.page_size pg
size_of c pg = elim (Release-cases pg.release) [
  | inl is ↦ rw is (c.size)
  | inr (k, is) ↦ rw is refl
]

pub addr_of : (l : Layout) (pg : PackedPage) → (block_of l pg).addr ≡ pg.buf
addr_of l pg = elim (Release-cases pg.release) [ inl is ↦ rw is refl | inr (k, is) ↦ rw is refl ]

module _ {s : PageSource} (c : Contract s) (w : State) (free queued : List ℕ) (rest : List Block)
    (hs : List ℕ) (k : IsCounted c w free queued rest hs) where
  -- Two buffers behind different `Arc`s never meet.
  pub buffers-Apart :
      (i j : ℕ) (pg pg' : PackedPage)
      → i ≢ j
      → page_of i w.arcs ≡ some pg
      → page_of j w.arcs ≡ some pg'
      → Apart pg.buf (extent s.page_size pg) pg'.buf (extent s.page_size pg')
  buffers-Apart i j pg pg' ne is is' =
      let (a, found, at, _) = find_arc-page i w.arcs pg is in
      let p = taken_out c free queued rest w i a found k.pool in
      let others =
        blocks c.layout (free ++ queued) (pooled (remove_arc i w.arcs))
          (boxed (remove_arc i w.arcs) ++ rest) in
      let live : Perm w.mem.live (block_of c.layout a.page ∷ others) =
        Perm.trans
          (subst
            (λ ps. Perm w.mem.live (
              map (page c.layout) ps
              ++ (own_block a.page ++ (boxed (remove_arc i w.arcs) ++ rest))))
            (sym (append_assoc free queued (own_page a.page ++ pooled (remove_arc i w.arcs))))
            p.owns.blocks)
          (owned_first c.layout (free ++ queued) (pooled (remove_arc i w.arcs))
            (boxed (remove_arc i w.arcs) ++ rest) a.page) in
      let other : Mem (block_of c.layout pg') others =
        owned-mem c.layout (free ++ queued) rest j (remove_arc i w.arcs) pg'
          (page_of-remove i j w.arcs ne ∙ is') in
      let apart : ApartBlocks (block_of c.layout a.page) (block_of c.layout pg') =
        apart_of_perm p.owns.sound live other in
      omega (
        arith,
        subst (λ x. ApartBlocks (block_of c.layout x) (block_of c.layout pg')) at apart,
        size_of c pg,
        size_of c pg',
        addr_of c.layout pg,
        addr_of c.layout pg',
      )

  -- The addresses of two spans with no byte in common never meet.
  pub spans-Apart :
      (t u : Span) (pg pg' : PackedPage)
      → page_of t.id w.arcs ≡ some pg
      → page_of u.id w.arcs ≡ some pg'
      → t.offset + t.size ≤ extent s.page_size pg
      → u.offset + u.size ≤ extent s.page_size pg'
      → ApartSpans t u
      → Apart (pg.buf + t.offset) t.size (pg'.buf + u.offset) u.size
  spans-Apart t u pg pg' is is' fits fits' apart = elim (==_cases t.id u.id) [
    | inl (_, same) ↦
        let at : pg ≡ pg' = some-inj (sym is ∙ ap (λ (i : ℕ). page_of i w.arcs) same ∙ is') in
        omega (arith, apart same, ap PackedPage.buf at)
    | inr (_, other) ↦ omega (arith, buffers-Apart t.id u.id pg pg' other is is')
  ]

-- The span that `u` has reads as it did.
abbrev pub Untouched : State → (ℕ → ℕ) → Span → Type 0
Untouched w bytes u =
    (pg : PackedPage)
    → page_of u.id w.arcs ≡ some pg
    → read_bytes bytes (pg.buf + u.offset) u.size
      ≡ read_bytes w.mem.bytes (pg.buf + u.offset) u.size

module _ {s : PageSource} (c : Contract s) (w : State) (free queued : List ℕ) (rest : List Block)
    (hs : List ℕ) (k : IsCounted c w free queued rest hs) (t : Span) (pg : PackedPage)
    (is : page_of t.id w.arcs ≡ some pg) (fits : t.offset + t.size ≤ extent s.page_size pg)
    (bytes : ℕ → ℕ) (same : SameOutside (pg.buf + t.offset) t.size w.mem.bytes bytes) where
  pub others-Untouched :
      (outs : List Span)
      → All (Within s.page_size w.arcs) outs
      → All (ApartSpans t) outs
      → All (Untouched w bytes) outs
  others-Untouched [] inside apart = tt
  others-Untouched (u ∷ outs) (here, inside) (far, apart) = (
    λ pg' is'.
        let (pg'', is'', fits') = here in
        let at : pg'' ≡ pg' = some-inj (sym is'' ∙ is') in
        read_bytes-Same (pg'.buf + u.offset) u.size (
          Same-of_outside (pg.buf + t.offset) t.size (pg'.buf + u.offset) u.size same (
            spans-Apart c w free queued rest hs k t u pg pg' is is' fits
              (subst (λ x. u.offset + u.size ≤ extent s.page_size x) at fits') far)),
    others-Untouched outs inside apart,
  )
