-- ===== src/Chunk/Closure.antt =====
-- src/chunk.rs: a closure that is given `as_mut_slice` of a builder.
use paged_alloc.Base.{
  All, ℕ, zero, suc, ◌+◌, ◌<◌, ◌≤◌, ◌≡◌, refl, ap, sym, ◌∙◌, subst, inl, inr, Option-cases, Option,
  none, some, List, [], ◌∷◌, ◌++◌, arith, length, take, take-all, ==_cases,
}
use paged_alloc.Memory.{read_bytes, write_bytes}
use paged_alloc.Memory.Copy.{
  write_bytes_outside, read-write_bytes, read_bytes-take, length-read_bytes,
}
use paged_alloc.Alloc.{Block, Memory}
use paged_alloc.Source.{PageSource, Contract}
use paged_alloc.World.{Run, returned, panicked}
use paged_alloc.Chunk.{State, PackedPage, drop_option, clone_option}
use paged_alloc.Chunk.Builder.{ChunkBuilder, Chunk, with_bytes, fill, as_slice}
use paged_alloc.Chunk.Books.{SameBooks}
use paged_alloc.Chunk.Carved.{Span, page_of}
use paged_alloc.Chunk.Holds.{IsChunks}
use paged_alloc.Chunk.Grant.{span_of}
use paged_alloc.Chunk.Append.{buf_of_lem}
use paged_alloc.Chunk.Written.{written-IsChunks}
use paged_alloc.Chunk.Isolated.{Untouched, others-Untouched}
use paged_alloc.Chunk.Beside.{Untouched-start}
use paged_alloc.Chunk.Lifetime.{reseal-mem}
use paged_alloc.Chunk.Copied.{as_slice_lem}

-- What a closure finds in a buffer.
abbrev pub found : Option ℕ → ℕ → ℕ → State → List ℕ
found none offset n w = []
found (some i) offset n w = elim (page_of i w.arcs) [
  | none ↦ []
  | some pg ↦ read_bytes w.mem.bytes (pg.buf + offset) n
]

-- And what it leaves there.
abbrev pub stored : Option ℕ → ℕ → ℕ → List ℕ → State → State
stored none offset n bs w = w
stored (some i) offset n bs w = elim (page_of i w.arcs) [
  | none ↦ w
  | some pg ↦ with_bytes w (write_bytes w.mem.bytes (pg.buf + offset) (take n bs))
]

length-take_le : (n : ℕ) (bs : List ℕ) → length (take n bs) ≤ n
length-take_le zero bs = omega arith
length-take_le (suc n) [] = omega arith
length-take_le (suc n) (b ∷ bs) = omega (arith, length-take_le n bs)

-- The live buffer that a builder refers to.
abbrev Buffered : Option ℕ → State → Type 0
Buffered packed w = (i : ℕ) → packed ≡ some i → (pg : PackedPage) × (page_of i w.arcs ≡ some pg)

-- How a closure that was given the buffer ends.
abbrev pub after : {A : Type 0} → Option ℕ → ℕ → ℕ → State → Option (List ℕ × A) → Run State A
after packed offset n w none = panicked w
after packed offset n w (some (bs, a)) = returned a (stored packed offset n bs w)

stored_lem :
    (i offset n : ℕ) (bs : List ℕ) (w : State) (pg : PackedPage)
    → page_of i w.arcs ≡ some pg
    → stored (some i) offset n bs w
      ≡ with_bytes w (write_bytes w.mem.bytes (pg.buf + offset) (take n bs))
stored_lem i offset n bs w pg is = rw (is, stored) refl

pub fill_lem :
    {A : Type 0} (init : List ℕ → Option (List ℕ × A)) (b : ChunkBuilder) (w : State)
    → Buffered b.packed w
    → fill init b w
      ≡ after b.packed b.offset b.capacity w (init (found b.packed b.offset b.capacity w))
unfolding fill
fill_lem init b w live = elim (Option-cases b.packed) [
  | inl e ↦ elim (Option-cases (init [])) [
    | inl f ↦ rw (e, fill) (rw f refl)
    | inr (_, f) ↦ rw (e, fill) (rw f refl)
  ]
  | inr (i, e) ↦
      let (pg, is) = live i e in
      elim (Option-cases (init (read_bytes w.mem.bytes (pg.buf + b.offset) b.capacity))) [
        | inl f ↦ rw (e, fill) (rw (buf_of_lem i w pg is, is, f, found, after, stored) refl)
        | inr ((bs, a), f) ↦
            rw (e, fill)
              (rw (buf_of_lem i w pg is, is, f, found, after)
                (ap (returned a) (sym (stored_lem i b.offset b.capacity bs w pg is))))
      ]
]

pub length-found :
    (packed : Option ℕ) (offset n : ℕ) (w : State)
    → Buffered packed w
    → (0 < n → (i : ℕ) × (packed ≡ some i))
    → length (found packed offset n w) ≡ n
length-found none offset zero w live held = refl
length-found none offset (suc n) w live held = let (_, e) = held (omega arith) in cc
length-found (some i) offset n w live held =
    let (pg, is) = live i refl in rw (is, found) (length-read_bytes w.mem.bytes (pg.buf + offset) n)

stored-arcs :
    (packed : Option ℕ) (offset n : ℕ) (bs : List ℕ) (w : State)
    → (stored packed offset n bs w).arcs ≡ w.arcs
stored-arcs none offset n bs w = refl
stored-arcs (some i) offset n bs w = elim (Option-cases (page_of i w.arcs)) [
  | inl e ↦ rw (e, stored) refl
  | inr (pg, e) ↦ rw (e, stored) refl
]

-- What is left in the buffer reads as such, up to any length within it.
stored-contents :
    (m : ℕ → ℕ) (a n len : ℕ) (bs : List ℕ)
    → length bs ≡ n
    → len ≤ n
    → read_bytes (write_bytes m a (take n bs)) a len ≡ take len bs
stored-contents m a n len bs long fits =
    let all : take n bs ≡ bs = subst (λ (k : ℕ). take k bs ≡ bs) long (take-all bs) in
    rw all (
      read_bytes-take (write_bytes m a bs) a len (length bs) (omega arith)
      ∙ ap (take len) (read-write_bytes m a bs))

pub stored-SameBooks :
    (packed : Option ℕ) (offset n : ℕ) (bs : List ℕ) (w : State)
    → SameBooks w (stored packed offset n bs w)
stored-SameBooks none offset n bs w = record { tenants = refl; stats = refl }
stored-SameBooks (some i) offset n bs w = elim (Option-cases (page_of i w.arcs)) [
  | inl e ↦ rw (e, stored) (record { tenants = refl; stats = refl })
  | inr (pg, e) ↦ rw (e, stored) (record { tenants = refl; stats = refl })
]

module _ {s : PageSource} (c : Contract s) (rest : List Block) (outs : List Span)
    (free queued : List ℕ) where
  pub live_buffer :
      (packed : Option ℕ) (offset n : ℕ) (w : State)
      → IsChunks c w free queued rest (span_of packed offset n ++ outs)
      → Buffered packed w
  live_buffer none offset n w k i e = cc
  live_buffer (some i) offset n w k j e =
      let (pg, is, _) = k.carved.within.0 in
      let same : i ≡ j = cc in (pg, subst (λ (x : ℕ). page_of x w.arcs ≡ some pg) same is)

  pub stored-IsChunks :
      (packed : Option ℕ) (offset n : ℕ) (bs : List ℕ) (w : State)
      → IsChunks c w free queued rest (span_of packed offset n ++ outs)
      → IsChunks c (stored packed offset n bs w) free queued rest (span_of packed offset n ++ outs)
  stored-IsChunks none offset n bs w k = k
  stored-IsChunks (some i) offset n bs w k =
      let (pg, is, inside) = k.carved.within.0 in
      rw (is, stored)
        (written-IsChunks c w free queued rest _ i pg _ k is (λ q out.
          write_bytes_outside w.mem.bytes (pg.buf + offset) (take n bs) q
            (omega (arith, inside, length-take_le n bs))))

take-empty : (len : ℕ) (bs : List ℕ) → length bs ≡ 0 → take len bs ≡ []
take-empty zero bs e = refl
take-empty (suc len) [] e = refl
take-empty (suc len) (b ∷ bs) e = absurd (omega (arith, e))

abbrev pub resealed : Option ℕ → State → State
resealed packed v = drop_option packed (clone_option packed v)

module _ {s : PageSource} (c : Contract s) (rest : List Block) (outs : List Span)
    (free queued : List ℕ) (offset n len : ℕ) (bs : List ℕ) (w : State) (chunk : Chunk) where
  -- What the chunk over the buffer reads as.
  pub slice_lem :
      (packed : Option ℕ)
      → chunk.inner.packed ≡ packed
      → chunk.inner.offset ≡ offset
      → chunk.inner.length ≡ len
      → (0 < n → (i : ℕ) × (packed ≡ some i))
      → length bs ≡ n
      → len ≤ n
      → IsChunks c w free queued rest (span_of packed offset n ++ outs)
      → let w' = resealed packed (stored packed offset n bs w) in
        as_slice chunk w' ≡ returned (take len bs) w'
  unfolding as_slice
  slice_lem none held at size buffer long fits k = elim (==_cases n 0) [
    | inl (_, is) ↦
        rw (held, as_slice)
          (ap (λ (xs : List ℕ). returned xs w) (sym (take-empty len bs (long ∙ is))))
    | inr (_, ne) ↦ let (_, e) = buffer (omega arith) in cc
  ]
  slice_lem (some i) held at size buffer long fits k =
      let (pg, is, _) = k.carved.within.0 in
      let v = stored (some i) offset n bs w in
      let now = stored-IsChunks c rest outs free queued (some i) offset n bs w k in
      let (mem, kept) = reseal-mem c rest i offset n v free queued outs now in
      let page : page_of i (resealed (some i) v).arcs ≡ some pg =
        kept i ∙ ap (page_of i) (stored-arcs (some i) offset n bs w) ∙ is in
      as_slice_lem chunk i (resealed (some i) v) pg held page
      ∙ rw (at, size)
          (ap
              (λ (m : Memory).
                returned (read_bytes m.bytes (pg.buf + offset) len) (resealed (some i) v))
              (mem ∙ ap State.mem (stored_lem i offset n bs w pg is))
            ∙ ap (λ (ys : List ℕ). returned ys (resealed (some i) v))
                (stored-contents w.mem.bytes (pg.buf + offset) n len bs long fits))

-- The spans of the others read as they did.
pub stored-Untouched :
    {s : PageSource} (c : Contract s) (rest : List Block) (outs : List Span) (free queued : List ℕ)
    (packed : Option ℕ) (offset n : ℕ) (bs : List ℕ) (w : State)
    → IsChunks c w free queued rest (span_of packed offset n ++ outs)
    → All (Untouched w (stored packed offset n bs w).mem.bytes) outs
stored-Untouched c rest outs free queued none offset n bs w k = Untouched-start w outs
stored-Untouched c rest outs free queued (some i) offset n bs w k =
    let (pg, is, inside) = k.carved.within.0 in
    subst (λ (v : State). All (Untouched w v.mem.bytes) outs)
      (sym (stored_lem i offset n bs w pg is))
      (others-Untouched c w free queued rest _ k.counted
        (record { id = i; offset = offset; size = n }) pg is inside _
        (λ q out.
          write_bytes_outside w.mem.bytes (pg.buf + offset) (take n bs) q
            (omega (arith, length-take_le n bs)))
        outs k.carved.within.1 k.carved.separate.0)
