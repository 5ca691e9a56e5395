-- ===== src/Chunk/Spared.antt =====
-- src/chunk.rs: what opening a page, and a block of its own, leave of the buffers that others hold.
use mathlib.Core.List.{Mem}
use paged_alloc.Base.{
  Bool, true, false, ℕ, zero, suc, ◌+◌, ◌<◌, ◌≡◌, ◌≢◌, refl, ap, subst, inl, inr, Option,
  Option-cases, none, some, List, ◌∷◌, ◌++◌, ==_cases, ne→==, ==_refl,
}
use paged_alloc.Alloc.{Layout, Block, Memory, alloc_zeroed}
use paged_alloc.Alloc.Zeroed.{IsAllocator, alloc_zeroed_lem}
use paged_alloc.Source.{PageSource, Contract}
use paged_alloc.Pool.{PagePool, allocate_raw_page}
use paged_alloc.Pool.Reuse.{allocate_raw_page_cases}
use paged_alloc.World.{fail, Act, Run, returned, panicked, aborted, out_of_fuel, and_then}
use paged_alloc.Chunk.{State, OpenPage, new_arc}
use paged_alloc.Chunk.Acquire.{with_arc, arrived}
use paged_alloc.Chunk.Invariant.{IsCounted, held}
use paged_alloc.Chunk.Carved.{Span, ids, page_of, IsCarved, IsCarved-open, IsCarved-arcs}
use paged_alloc.Chunk.Claim.{page_at}
use paged_alloc.Chunk.Holds.{
  IsChunks, with_current, IsCounted-current, retire-IsChunks, next_arc_new,
}
use paged_alloc.Chunk.Pages.{page_of-clone_arc, clone_arc-mem}
use paged_alloc.Chunk.Kept.{
  Kept, Kept-trans, mem-Kept, Allocated-Same, allocate_raw_page-mem, drop_arc-Kept,
}
use paged_alloc.Chunk.Dispatch.{
  refused, room, advance, retire, take_page, open_new_page, find_room, heap_page,
}

-- A call that returns leaves the buffers of all these handles as they were.
abbrev pub Leaves : {A : Type 0} → ℕ → List ℕ → State → Run State A → Type 0
Leaves n hs w (returned a v) = (j : ℕ) → Mem j hs → Kept n j w v
Leaves n hs w (panicked v) = Unit
Leaves n hs w aborted = Unit
Leaves n hs w out_of_fuel = Unit

Leaves-after :
    {A : Type 0} (n : ℕ) (hs : List ℕ) (w v : State) (r : Run State A)
    → ((j : ℕ) → Mem j hs → Kept n j w v)
    → Leaves n hs v r
    → Leaves n hs w r
Leaves-after n hs w v (returned a u) first later =
    λ j h. Kept-trans n j w v u (first j h) (later j h)
Leaves-after n hs w v (panicked u) first later = tt
Leaves-after n hs w v aborted first later = tt
Leaves-after n hs w v out_of_fuel first later = tt

-- What follows changes neither memory nor buffers.
pub and_then-Leaves :
    {A B : Type 0} (n : ℕ) (hs : List ℕ) (w : State) (r : Run State A) (b : A → B)
    (f : State → State)
    → ((v : State) → ((f v).arcs ≡ v.arcs) × ((f v).mem ≡ v.mem))
    → Leaves n hs w r
    → Leaves n hs w (and_then r (λ a v. returned (b a) (f v)))
and_then-Leaves n hs w (returned a v) b f same k = λ j h.
    Kept-trans n j w v (f v) (k j h) (mem-Kept n j v (f v) (ap (page_of j) (same v).0) (same v).1)
and_then-Leaves n hs w (panicked v) b f same k = tt
and_then-Leaves n hs w aborted b f same k = tt
and_then-Leaves n hs w out_of_fuel b f same k = tt

fail-Leaves :
    (n : ℕ) (hs : List ℕ) (w : State) (b : Bool) (v : State) → Leaves {A = ℕ} n hs w (fail b v)
fail-Leaves n hs w true v = tt
fail-Leaves n hs w false v = tt

nothing-Leaves :
    {A B C : Type 0} (n : ℕ) (hs : List ℕ) (w : State) (b : Bool) (v : State) (f : A → Act State B)
    (g : B → Act State C)
    → Leaves n hs w (and_then (and_then (fail b v) f) g)
nothing-Leaves n hs w true v f g = tt
nothing-Leaves n hs w false v f g = tt

module _ {s : PageSource} (c : Contract s) (rest : List Block) (outs : List Span) where
  retire_from :
      (w : State) (current : Option OpenPage) (free queued : List ℕ)
      → IsChunks c (with_current w current) free queued rest outs
      → (j : ℕ) → Mem j (ids outs)
      → Kept s.page_size j (with_current w current) (retire (with_current w current))
  unfolding retire
  retire_from w none free queued k j h =
      mem-Kept s.page_size j (with_current w none) (with_current w none) refl refl
  retire_from w (some o) free queued k j h =
      let (p, is, _) = k.carved.open_page in
      drop_arc-Kept c free queued rest (with_current w none) (ids outs) o.shared p j
        (IsCounted-current c (with_current w (some o)) none k.counted) is h

  -- A page from the pool, behind a new `Arc`.
  taken-Kept :
      (w : State) (free queued hs : List ℕ) (p : ℕ) (pages : PagePool) (m : Memory)
      → IsCounted c w free queued rest hs
      → allocate_raw_page w.pool.pages w.mem ≡ some (p, pages, m)
      → (j : ℕ) → Mem j hs
      → Kept s.page_size j w (with_arc w (page_at p) pages m)
  taken-Kept w free queued hs p pages m k took j h pg is = (
    rw (ne→== w.next_arc j (next_arc_new c w free queued rest hs k j h)) is,
    elim (allocate_raw_page-mem c w.pool.pages pages w.mem m p free queued _ _ k.pool took) [
      | inl same ↦ λ q lo hi. ap (λ (o : Memory). o.bytes q) same
      | inr new ↦ Allocated-Same c free queued rest w hs k _ m j pg new is
    ],
  )

  pub take_page-Leaves :
      (w : State) (free queued hs : List ℕ)
      → IsCounted c w free queued rest hs
      → Leaves s.page_size hs w (take_page w)
  unfolding take_page new_arc
  take_page-Leaves w free queued hs k = elim (Option-cases (allocate_raw_page w.pool.pages w.mem)) [
    | inl e ↦
        rw (e, take_page)
          (fail-Leaves s.page_size hs w w.pool.pages.shared.source.unwinds (refused w))
    | inr ((p, pages, m), e) ↦ rw (e, take_page) (taken-Kept w free queued hs p pages m k e)
  ]

  pub heap_page-Leaves :
      {place : Layout → Memory → ℕ} (good : IsAllocator place) (l : Layout) (w : State)
      (free queued hs : List ℕ)
      → 0 < l.size
      → IsCounted c w free queued rest hs
      → Leaves s.page_size hs w (heap_page place l w)
  unfolding heap_page new_arc
  heap_page-Leaves {place} good l w free queued hs pos k =
      elim (==_cases (alloc_zeroed place l w.mem).0 0) [
        | inl (e, _) ↦ rw (e, heap_page) tt
        | inr (e, ne) ↦
            let (_, new) = alloc_zeroed_lem good l w.mem k.pool.owns.sound pos ne in
            rw (e, heap_page)
              (λ j h pg is. (
                rw (ne→== w.next_arc j (next_arc_new c w free queued rest hs k j h)) is,
                Allocated-Same c free queued rest w hs k _ _ j pg new is,
              ))
      ]

  advance-Kept : (id offset : ℕ) (w : State) (n j : ℕ) → Kept n j w (advance id offset w)
  unfolding advance
  advance-Kept id offset w n j =
      let v = with_current w (some (record { shared = id; write_offset = offset })) in
      mem-Kept n j w (advance id offset w) (page_of-clone_arc id j v) (clone_arc-mem id v)

  -- The state once a new page is open.
  abbrev reopened : State → ℕ → PagePool → Memory → State
  reopened w p pages m =
      with_current (with_arc w (page_at p) pages m)
        (some (record { shared = w.next_arc; write_offset = 0 }))

  reopened-IsChunks :
      (w : State) (free queued free' queued' : List ℕ) (p : ℕ) (pages : PagePool) (m : Memory)
      → IsCounted c w free queued rest (ids outs)
      → IsCarved s.page_size none w.arcs outs
      → IsCounted c (with_arc w (page_at p) pages m) free' queued' rest (w.next_arc ∷ ids outs)
      → IsChunks c (reopened w p pages m) free' queued' rest outs
  reopened-IsChunks w free queued free' queued' p pages m k carved left = record {
    counted = IsCounted-current c (with_arc w (page_at p) pages m) _ left;
    carved =
        IsCarved-open s.page_size w.next_arc p (rw (==_refl w.next_arc) refl) new
          (IsCarved-arcs s.page_size none (λ j h. rw (ne→== w.next_arc j (new j h)) refl) carved);
  }
    where
      new : (j : ℕ) → Mem j (ids outs) → w.next_arc ≢ j
      new = next_arc_new c w free queued rest (ids outs) k

  pub find_room-Leaves :
      (fuel size align : ℕ) (w : State) (free queued : List ℕ)
      → IsChunks c w free queued rest outs
      → Leaves s.page_size (ids outs) w (find_room fuel size align w)
  unfolding find_room open_new_page take_page new_arc
  find_room-Leaves zero size align w free queued k = tt
  find_room-Leaves (suc fuel) size align w free queued k = elim (Option-cases (room size align w)) [
    | inr ((id, offset), e) ↦
        rw (e, find_room) (λ j h. advance-Kept id (offset + size) w s.page_size j)
    | inl e ↦
        let (queued', left, closed) = retire-IsChunks c w free queued rest outs k in
        let v = retire w in
        let counted =
          subst (λ cur. IsCounted c v free queued' rest (held cur ++ ids outs)) closed
            left.counted in
        let carved = subst (λ cur. IsCarved s.page_size cur v.arcs outs) closed left.carved in
        rw (e, find_room)
          (elim (allocate_raw_page_cases c v.pool.pages v.mem free queued' _ _ counted.pool) [
            | inl (_, _, failed, _) ↦
                rw (failed, take_page)
                  (nothing-Leaves s.page_size (ids outs) w v.pool.pages.shared.source.unwinds
                    (refused v)
                    (λ id u.
                      returned tt
                        (with_current u (some (record { shared = id; write_offset = 0 }))))
                    (λ _. find_room fuel size align))
            | inr (p, pages, m, took, pool) ↦
                let u = reopened v p pages m in
                let now =
                  reopened-IsChunks v free queued' _ _ p pages m counted carved (
                    arrived c free queued' rest v (page_at p) pages m _ _ (ids outs) counted
                      pool) in
                rw (took, take_page)
                  (Leaves-after s.page_size (ids outs) w u (find_room fuel size align u)
                    (λ j h.
                      Kept-trans s.page_size j w v u
                        (retire_from w w.pool.current free queued k j h)
                        (taken-Kept v free queued' (ids outs) p pages m counted took j h))
                    (find_room-Leaves fuel size align u _ _ now))
          ])
  ]
