-- ===== src/Chunk/Packed.antt =====
-- src/chunk.rs: the loop of the packed path, round by round.
use mathlib.Core.List.{Mem}
use paged_alloc.Base.{
  ℕ, suc, ◌+◌, ◌*◌, ◌^◌, ◌<◌, ◌≤◌, ◌≡◌, ◌≢◌, refl, ap, sym, [], ◌∙◌, subst, inl, inr, ◌⊎◌, Option,
  Option-cases, none, some, List, ◌∷◌, arith, ==_refl, ne→==,
}
use paged_alloc.Alloc.{Block, Memory}
use paged_alloc.Pool.{PagePool}
use paged_alloc.Source.{PageSource, Contract}
use paged_alloc.World.{Act, returned, ◌>>◌}
use paged_alloc.Chunk.{State, OpenPage, page_size}
use paged_alloc.Chunk.Invariant.{IsCounted}
use paged_alloc.Chunk.Carved.{Span, ids, IsCarved-arcs, IsCarved-open, page_of}
use paged_alloc.Chunk.Pages.{find_arc-page, page_of-clone_arc}
use paged_alloc.Chunk.Acquire.{take_page_cases, with_arc}
use paged_alloc.Chunk.Fit.{fit-Fits, fit-fresh, IsPacked}
use paged_alloc.Chunk.Holds.{
  IsChunks, with_current, IsCounted-current, retire-IsChunks, next_arc_new,
}
use paged_alloc.Chunk.Failure.{Refused, Refused-and_then}
use paged_alloc.Chunk.Dispatch.{fit, room, advance, retire, open_new_page, find_room, packed_rounds}
use paged_alloc.Chunk.Claim.{page_at, page-IsOpen, advance-IsChunks}

abbrev chosen : OpenPage → Option ℕ → Option (ℕ × ℕ)
chosen o none = none
chosen o (some offset) = some (o.shared, offset)

room_open :
    (w : State) (o : OpenPage) (p size align : ℕ)
    → page_of o.shared w.arcs ≡ some (page_at p)
    → room size align (with_current w (some o))
      ≡ chosen o (fit (page_size w) p o.write_offset size align)
unfolding room
room_open w o p size align is =
    let (a, found, at, _) = find_arc-page o.shared w.arcs (page_at p) is in
    rw (found, at, room)
      (elim (Option-cases (fit (page_size w) p o.write_offset size align)) [
        | inl e ↦ rw e refl
        | inr (offset, e) ↦ rw e refl
      ])

-- One round with a page that has room.
round_hit :
    (fuel size align id offset : ℕ) (w : State)
    → room size align w ≡ some (id, offset)
    → find_room (suc fuel) size align w ≡ returned (id, offset) (advance id (offset + size) w)
unfolding find_room
round_hit fuel size align id offset w e = rw (e, find_room) refl

round_miss :
    (fuel size align : ℕ) (w : State)
    → room size align w ≡ none
    → find_room (suc fuel) size align w ≡ (open_new_page >> find_room fuel size align) (retire w)
unfolding find_room
round_miss fuel size align w e = rw (e, find_room) refl

module _ {s : PageSource} (c : Contract s) (size k : ℕ) (rest : List Block) (outs : List Span) where
  -- The bytes are claimed for one builder, at an aligned address.
  pub record Claimed (w' : State) (id offset : ℕ) : Type 0 where
    pub free : List ℕ
    pub queued : List ℕ
    pub chunks :
        IsChunks c w' free queued rest (record { id = id; offset = offset; size = size } ∷ outs)
    pub inside : offset + size ≤ s.page_size
    pub buf : ℕ
    pub page : page_of id w'.arcs ≡ some (page_at buf)
    pub multiple : ℕ
    pub aligned : buf + offset ≡ multiple * 2 ^ k

  claim_open :
      (fuel : ℕ) (w : State) (o : OpenPage) (free queued : List ℕ) (p offset : ℕ)
      → k < 64
      → IsChunks c (with_current w (some o)) free queued rest outs
      → page_of o.shared w.arcs ≡ some (page_at p)
      → o.write_offset ≤ s.page_size
      → fit s.page_size p o.write_offset size (2 ^ k) ≡ some offset
      → (w' : State) × (find_room (suc fuel) size (2 ^ k) (with_current w (some o))
          ≡ returned (o.shared, offset) w')
        × Claimed w' o.shared offset
  unfolding advance
  claim_open fuel w o free queued p offset lt chunks is le found =
      let (open_now, _) =
        page-IsOpen c (with_current w (some o)) free queued rest _ o.shared p o.write_offset
          chunks.counted is le in
      let (fits, _) = fit-Fits s.page_size p o.write_offset size k offset lt open_now found in
      (
        advance o.shared (offset + size) w,
        round_hit fuel size (2 ^ k) o.shared offset (with_current w (some o)) (
            room_open w o p size (2 ^ k) is
            ∙ ap (λ (n : ℕ). chosen o (fit n p o.write_offset size (2 ^ k)))
                chunks.counted.pool.page_size
            ∙ ap (chosen o) found),
        record {
          free = free;
          queued = queued;
          chunks =
              advance-IsChunks c w free queued rest o offset size outs fits.past fits.inside chunks;
          inside = fits.inside;
          buf = p;
          page = page_of-clone_arc o.shared o.shared _ ∙ is;
          multiple = fits.multiple;
          aligned = fits.aligned;
        },
      )

  opened_state : State → ℕ → PagePool → Memory → State
  opened_state v p pages m =
      with_current (with_arc (with_current v none) (page_at p) pages m)
        (some (record { shared = v.next_arc; write_offset = 0 }))

  opened-IsChunks :
      (v : State) (free queued free' queued' : List ℕ) (p : ℕ) (pages : PagePool) (m : Memory)
      → IsChunks c (with_current v none) free queued rest outs
      → IsCounted c
          (with_arc (with_current v none) (page_at p) pages m)
          free'
          queued'
          rest
          (v.next_arc ∷ ids outs)
      → IsChunks c (opened_state v p pages m) free' queued' rest outs
  unfolding opened_state
  opened-IsChunks v free queued free' queued' p pages m chunks left = record {
    counted = IsCounted-current c (with_arc (with_current v none) (page_at p) pages m) _ left;
    carved = IsCarved-open s.page_size v.next_arc p (rw (==_refl v.next_arc) refl) new (
        IsCarved-arcs s.page_size none (λ j h. rw (ne→== v.next_arc j (new j h)) refl)
          chunks.carved);
  }
    where
      new : (j : ℕ) → Mem j (ids outs) → v.next_arc ≢ j
      new = next_arc_new c (with_current v none) free queued rest (ids outs) chunks.counted

  -- The end of `open_new_page`.
  abbrev opened : ℕ → Act State (Unit {0})
  opened id w = returned tt (with_current w (some (record { shared = id; write_offset = 0 })))

  -- The round after the open page has been closed.
  round_fresh :
      (v : State) (free queued : List ℕ)
      → k < 64
      → IsPacked s.page_size size (2 ^ k)
      → IsChunks c (with_current v none) free queued rest outs
      → Refused c rest outs ((open_new_page >> find_room 1 size (2 ^ k)) (with_current v none))
        ⊎ ((w' : State) × (id offset : ℕ) × ((open_new_page >> find_room 1 size (2 ^ k))
                (with_current v none)
              ≡ returned (id, offset) w')
            × Claimed w' id offset)
  unfolding open_new_page opened_state
  round_fresh v free queued lt packed chunks =
      elim (take_page_cases c free queued rest (with_current v none) (ids outs) chunks.counted) [
        | inl (e, f, source, failed) ↦ inl (
            Refused-and_then c rest outs (λ _. find_room 1 size (2 ^ k))
              (Refused-and_then c rest outs opened (record {
                before = with_current v none;
                chunks =
                    subst (λ fs. IsChunks c (with_current v none) fs [] rest outs) e
                      (subst (λ qs. IsChunks c (with_current v none) free qs rest outs) f chunks);
                source = source;
                result = failed;
              })))
        | inr (p, pages, m, took, left) ↦
            let now = opened-IsChunks v free queued _ _ p pages m chunks left in
            let is : page_of v.next_arc (opened_state v p pages m).arcs ≡ some (page_at p) =
              rw (==_refl v.next_arc) refl in
            let (open_now, even) =
              page-IsOpen c (opened_state v p pages m) _ _ rest _ v.next_arc p 0 now.counted is
                (omega arith) in
            let (offset, found) = fit-fresh s.page_size p size k lt open_now even packed in
            let (w', did, claimed) =
              claim_open 0 (opened_state v p pages m)
                (record { shared = v.next_arc; write_offset = 0 }) _ _ p offset lt now is
                (omega arith) found in
            inr (w', v.next_arc, offset, rw (took, open_new_page) did, claimed)
      ]

  room_cases :
      (w : State) (current : Option OpenPage) (free queued : List ℕ)
      → IsChunks c (with_current w current) free queued rest outs
      → ((o : OpenPage) × (p offset : ℕ) × (current ≡ some o)
          × (page_of o.shared w.arcs ≡ some (page_at p))
          × (o.write_offset ≤ s.page_size)
          × (fit s.page_size p o.write_offset size (2 ^ k) ≡ some offset))
        ⊎ (room size (2 ^ k) (with_current w current) ≡ none)
  unfolding room
  room_cases w none free queued chunks = inr refl
  room_cases w (some o) free queued chunks =
      let (p, is, le) = chunks.carved.open_page in
      elim (Option-cases (fit s.page_size p o.write_offset size (2 ^ k))) [
        | inl e ↦ inr (
            room_open w o p size (2 ^ k) is
            ∙ ap (λ (n : ℕ). chosen o (fit n p o.write_offset size (2 ^ k)))
                chunks.counted.pool.page_size
            ∙ ap (chosen o) e)
        | inr (offset, e) ↦ inl (o, p, offset, refl, is, le, e)
      ]

  round_first :
      (w : State) (current : Option OpenPage) (free queued : List ℕ)
      → k < 64
      → IsPacked s.page_size size (2 ^ k)
      → IsChunks c (with_current w current) free queued rest outs
      → Refused c rest outs (find_room packed_rounds size (2 ^ k) (with_current w current))
        ⊎ ((w' : State) × (id offset : ℕ) × (find_room packed_rounds size
                (2 ^ k)
                (with_current w current)
              ≡ returned (id, offset) w')
            × Claimed w' id offset)
  round_first w current free queued lt packed chunks =
      elim (room_cases w current free queued chunks) [
        | inl (o, p, offset, here, is, le, found) ↦
            let (w', did, claimed) =
              claim_open 1 w o free queued p offset lt
                (subst (λ cur. IsChunks c (with_current w cur) free queued rest outs) here chunks)
                is le found in
            inr (
              w',
              o.shared,
              offset,
              ap (λ cur. find_room packed_rounds size (2 ^ k) (with_current w cur)) here ∙ did,
              claimed,
            )
        | inr missed ↦
            let (queued', left, closed) =
              retire-IsChunks c (with_current w current) free queued rest outs chunks in
            let v = retire (with_current w current) in
            let same : v ≡ with_current v none = ap (with_current v) closed in
            let go =
              round_fresh v free queued' lt packed
                (subst (λ u. IsChunks c u free queued' rest outs) same left) in
            let miss =
              round_miss 1 size (2 ^ k) (with_current w current) missed
              ∙ ap (λ u. (open_new_page >> find_room 1 size (2 ^ k)) u) same in
            elim go [
              | inl failed ↦ inl (subst (Refused c rest outs) (sym miss) failed)
              | inr (w', id, offset, did, claimed) ↦ inr (w', id, offset, miss ∙ did, claimed)
            ]
      ]

  -- The loop of `allocate_packed` ends within two rounds, from any state of the invariant and for a
  -- request that the packed path takes: the page source fails where no page is at hand, with the
  -- invariant kept but for the count of the page that did not come, or an aligned range on a live
  -- page is claimed that no builder or chunk shares, and the invariant is kept.
  pub find_room-Claimed :
      (w : State) (free queued : List ℕ)
      → k < 64
      → IsPacked s.page_size size (2 ^ k)
      → IsChunks c w free queued rest outs
      → Refused c rest outs (find_room packed_rounds size (2 ^ k) w)
        ⊎ ((w' : State) × (id offset : ℕ) × (find_room packed_rounds size (2 ^ k) w
              ≡ returned (id, offset) w')
            × Claimed w' id offset)
  find_room-Claimed w free queued lt packed chunks =
      round_first w w.pool.current free queued lt packed chunks
