-- ===== src/Chunk/Beside.antt =====
-- src/chunk.rs: what the other builders and chunks read as, after an allocation and what follows it.
use mathlib.Core.List.{Mem, mem-cons_self}
use mathlib.Core.List
use paged_alloc.Base.{
  ℕ, ◌+◌, ◌≡◌, refl, sym, subst, ◌≤◌, ◌∙◌, Option, none, some, List, [], ◌∷◌, ◌++◌, All, arith,
}
use paged_alloc.Memory.Copy.{read_bytes-Same}
use paged_alloc.Alloc.{Block}
use paged_alloc.Source.{PageSource, Contract}
use paged_alloc.Chunk.{State, drop_option, clone_option}
use paged_alloc.Chunk.Carved.{Span, ids, Within, extent}
use paged_alloc.Chunk.Grant.{span_of}
use paged_alloc.Chunk.Holds.{IsChunks}
use paged_alloc.Chunk.Isolated.{Untouched, some-inj}
use paged_alloc.Chunk.Kept.{Kept}
use paged_alloc.Chunk.Lifetime.{reseal-mem}

-- Buffers that were kept, and of which the spans are untouched by what follows.
pub Kept-Untouched :
    (n : ℕ) (w v : State) (bytes : ℕ → ℕ) (outs : List Span)
    → All (Within n w.arcs) outs
    → ((j : ℕ) → Mem j (ids outs) → Kept n j w v)
    → All (Untouched v bytes) outs
    → All (Untouched w bytes) outs
Kept-Untouched n w v bytes [] inside kept later = tt
Kept-Untouched n w v bytes (u ∷ outs) (here, inside) kept (first, later) = (
  λ pg is.
      let (pg', is', fits) = here in
      let at : pg' ≡ pg = some-inj (sym is' ∙ is) in
      let (there, same) = kept u.id mem-cons_self pg is in
      first pg there
      ∙ read_bytes-Same (pg.buf + u.offset) u.size (λ q lo hi.
        same q (omega arith) (omega (arith, subst (λ x. u.offset + u.size ≤ extent n x) at fits))),
  Kept-Untouched n w v bytes outs inside (λ j h. kept j (List.mem-cons_of_mem _ h)) later,
)

-- Before anything follows.
pub Untouched-start : (v : State) (outs : List Span) → All (Untouched v v.mem.bytes) outs
Untouched-start v [] = tt
Untouched-start v (u ∷ outs) = (λ pg is. refl, Untouched-start v outs)

-- A clone and a drop of one handle leave memory alone.
pub resealed-mem :
    {s : PageSource} (c : Contract s) (rest : List Block) (packed : Option ℕ) (offset size : ℕ)
    (w : State) (free queued : List ℕ) (outs : List Span)
    → IsChunks c w free queued rest (span_of packed offset size ++ outs)
    → (drop_option packed (clone_option packed w)).mem ≡ w.mem
resealed-mem c rest none offset size w free queued outs k = refl
resealed-mem c rest (some i) offset size w free queued outs k =
    (reseal-mem c rest i offset size w free queued outs k).0
