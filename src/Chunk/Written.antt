-- ===== src/Chunk/Written.antt =====
-- src/chunk.rs: writes within one buffer, and the invariant.
use mathlib.Core.List.{Perm, append_assoc}
use mathlib.Core.List.Perm
use paged_alloc.Base.{ℕ, ◌≡◌, refl, sym, subst, some, List, ◌++◌}
use paged_alloc.Memory.Region.{SameOutside}
use paged_alloc.Alloc.{Block, Memory, block}
use paged_alloc.Source.{PageSource, Contract}
use paged_alloc.Pool.{PagePool}
use paged_alloc.Pool.Invariant.{IsPool}
use paged_alloc.Pool.Write.{write-IsPool, used-perm}
use paged_alloc.Pool.Rest.{rest-perm, rest-written}
use paged_alloc.Chunk.{State, PackedPage, Release, to_pool, to_heap, remove_arc}
use paged_alloc.Chunk.Builder.{with_bytes}
use paged_alloc.Chunk.Arcs.{own_page, own_block, pooled, boxed, gather-remove}
use paged_alloc.Chunk.Invariant.{IsCounted}
use paged_alloc.Chunk.Carved.{extent, page_of, Span}
use paged_alloc.Chunk.Pages.{find_arc-page}
use paged_alloc.Chunk.Drop.{taken_out}
use paged_alloc.Chunk.Holds.{IsChunks}

module _ {s : PageSource} (c : Contract s) (pages : PagePool) (m n : Memory)
    (free queued ps : List ℕ) (bs : List Block) where
  by_release :
      (buf : ℕ) (release : Release)
      → SameOutside buf
          (extent s.page_size (record { buf = buf; release = release }))
          m.bytes
          n.bytes
      → n.live ≡ m.live
      → IsPool c pages m free queued
          (own_page (record { buf = buf; release = release }) ++ ps)
          (own_block (record { buf = buf; release = release }) ++ bs)
      → IsPool c pages n free queued
          (own_page (record { buf = buf; release = release }) ++ ps)
          (own_block (record { buf = buf; release = release }) ++ bs)
  by_release buf to_pool same live k = write-IsPool c pages m n buf free queued ps bs same live k
  by_release buf (to_heap l) same live k = rest-written c pages (block buf l) same live k

module _ {s : PageSource} (c : Contract s) (w : State) (free queued : List ℕ) (rest : List Block)
    (hs : List ℕ) where
  written :
      (i : ℕ) (pg : PackedPage) (bytes : ℕ → ℕ)
      → IsCounted c w free queued rest hs
      → page_of i w.arcs ≡ some pg
      → SameOutside pg.buf (extent s.page_size pg) w.mem.bytes bytes
      → IsPool c w.pool.pages
          (record w.mem { bytes = bytes })
          free
          queued
          (pooled w.arcs)
          (boxed w.arcs ++ rest)
  written i pg bytes k is same =
      let (a, found, at, _) = find_arc-page i w.arcs pg is in
      let left = boxed (remove_arc i w.arcs) ++ rest in
      rest-perm c w.pool.pages
        (subst (λ x. Perm x (boxed w.arcs ++ rest))
          (append_assoc (own_block a.page) (boxed (remove_arc i w.arcs)) rest)
          (Perm.append_right rest (Perm.symm (gather-remove own_block i w.arcs a found))))
        (used-perm c w.pool.pages (record w.mem { bytes = bytes })
          (Perm.symm (gather-remove own_page i w.arcs a found))
          (by_release c w.pool.pages w.mem (record w.mem { bytes = bytes }) free queued
            (pooled (remove_arc i w.arcs)) left a.page.buf a.page.release
            (subst (λ x. SameOutside x.buf (extent s.page_size x) w.mem.bytes bytes) (sym at) same)
            refl (taken_out c free queued rest w i a found k.pool)))

-- A change of memory within one buffer keeps the invariant.
pub written-IsChunks :
    {s : PageSource} (c : Contract s) (w : State) (free queued : List ℕ) (rest : List Block)
    (outs : List Span) (i : ℕ) (pg : PackedPage) (bytes : ℕ → ℕ)
    → IsChunks c w free queued rest outs
    → page_of i w.arcs ≡ some pg
    → SameOutside pg.buf (extent s.page_size pg) w.mem.bytes bytes
    → IsChunks c (with_bytes w bytes) free queued rest outs
written-IsChunks c w free queued rest outs i pg bytes k is same = record {
  counted = record {
    pool = written c w free queued rest _ i pg bytes k.counted is same;
    counts = k.counted.counts;
    alive = k.counted.alive;
    distinct = k.counted.distinct;
    fresh = k.counted.fresh;
    no_fault = k.counted.no_fault;
  };
  carved = k.carved;
}
