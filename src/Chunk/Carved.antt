-- ===== src/Chunk/Carved.antt =====
-- src/chunk.rs: which bytes of which buffer each builder and chunk has.
use mathlib.Core.List.{Mem, mem-cons_self}
use mathlib.Core.List
use paged_alloc.Base.{
  ℕ, ◌+◌, ◌≤◌, ◌≡◌, ◌≢◌, sym, ◌∙◌, Option, none, some, List, [], ◌∷◌, ◌++◌, map, All, All-map, ◌==◌,
  if◌then◌else◌, arith,
}
use paged_alloc.Memory.Region.{Apart}
use paged_alloc.Chunk.{ArcPage, PackedPage, OpenPage, to_pool, to_heap}
use paged_alloc.Chunk.Invariant.{held}

-- The buffer behind the `Arc` numbered `i`.
abbrev pub page_of : ℕ → List ArcPage → Option PackedPage
page_of i [] = none
page_of i (a ∷ arcs) = if a.id == i then some a.page else page_of i arcs

-- The bytes `[offset, offset + size)` of a buffer.
pub record Span : Type 0 where
  pub id : ℕ
  pub offset : ℕ
  pub size : ℕ

abbrev pub ids : List Span → List ℕ
ids outs = map Span.id outs

-- The size of a buffer, from where it came from.
abbrev pub extent : ℕ → PackedPage → ℕ
extent page_size page = elim page.release [ to_pool ↦ page_size | to_heap l ↦ l.size ]

-- The bytes lie in a live buffer.
abbrev pub Within : ℕ → List ArcPage → Span → Type 0
Within page_size arcs t =
    (page : PackedPage) × (page_of t.id arcs ≡ some page)
    × (t.offset + t.size ≤ extent page_size page)

abbrev pub ApartSpans : Span → Span → Type 0
ApartSpans t u = t.id ≡ u.id → Apart t.offset t.size u.offset u.size

-- No two of the spans share a byte.
abbrev pub Separate : List Span → Type 0
Separate [] = Unit
Separate (t ∷ outs) = All (ApartSpans t) outs × Separate outs

-- The cursor of the open page lies on it, and past the spans that it has handed out.
abbrev pub Opened : ℕ → Option OpenPage → List ArcPage → Type 0
Opened page_size none arcs = Unit
Opened page_size (some o) arcs =
    (p : ℕ) × (page_of o.shared arcs ≡ some (record { buf = p; release = to_pool }))
    × (o.write_offset ≤ page_size)

abbrev pub Below : Option OpenPage → Span → Type 0
Below none t = Unit
Below (some o) t = o.shared ≡ t.id → t.offset + t.size ≤ o.write_offset

pub record IsCarved (page_size : ℕ) (current : Option OpenPage) (arcs : List ArcPage)
    (outs : List Span) : Type 0 where
  pub open_page : Opened page_size current arcs
  pub within : All (Within page_size arcs) outs
  pub separate : Separate outs
  pub below : All (Below current) outs

-- A property of every span, from one of the numbers of the spans.
All-ids :
    {P Q : Span → Type 0} {R : ℕ → Type 0} (f : (t : Span) → P t → R t.id → Q t) (outs : List Span)
    → All P outs
    → ((j : ℕ) → Mem j (ids outs) → R j)
    → All Q outs
All-ids f [] h r = tt
All-ids f (t ∷ outs) h r =
    (f t h.0 (r t.id mem-cons_self), All-ids f outs h.1 (λ j e. r j (List.mem-cons_of_mem _ e)))

module _ (page_size : ℕ) {arcs : List ArcPage} {outs : List Span} where
  -- The packed path's claim at or past the cursor.
  pub IsCarved-advance :
      (o : OpenPage) (offset size : ℕ)
      → o.write_offset ≤ offset
      → offset + size ≤ page_size
      → IsCarved page_size (some o) arcs outs
      → IsCarved page_size
          (some (record { shared = o.shared; write_offset = offset + size }))
          arcs
          (record { id = o.shared; offset = offset; size = size } ∷ outs)
  IsCarved-advance o offset size past inside k =
      let (p, is, _) = k.open_page in
      record {
        open_page = (p, is, inside);
        within = ((_, is, inside), k.within);
        separate = (All-map (λ t below same. omega (arith, below same)) outs k.below, k.separate);
        below =
            (λ _. omega arith, All-map (λ t below same. omega (arith, below same)) outs k.below);
      }

  pub IsCarved-retire :
      (current : Option OpenPage)
      → IsCarved page_size current arcs outs
      → IsCarved page_size none arcs outs
  IsCarved-retire current k = record {
    open_page = tt;
    within = k.within;
    separate = k.separate;
    below = All-map (λ t _. tt) outs k.below;
  }

  -- A page on which nothing has been handed out yet becomes the open page.
  pub IsCarved-open :
      (id p : ℕ)
      → page_of id arcs ≡ some (record { buf = p; release = to_pool })
      → ((j : ℕ) → Mem j (ids outs) → id ≢ j)
      → IsCarved page_size none arcs outs
      → IsCarved page_size (some (record { shared = id; write_offset = 0 })) arcs outs
  IsCarved-open id p is new k = record {
    open_page = (p, is, omega arith);
    within = k.within;
    separate = k.separate;
    below = All-ids {R = λ j. id ≢ j} (λ t _ ne e. absurd (ne e)) outs k.below new;
  }

  -- A buffer that a single builder has.
  pub IsCarved-cons :
      (current : Option OpenPage) (t : Span)
      → Within page_size arcs t
      → ((j : ℕ) → Mem j (held current ++ ids outs) → t.id ≢ j)
      → IsCarved page_size current arcs outs
      → IsCarved page_size current arcs (t ∷ outs)
  IsCarved-cons current t inside new k = record {
    open_page = k.open_page;
    within = (inside, k.within);
    separate = (
      All-ids {R = λ j. t.id ≢ j} (λ u _ ne e. absurd (ne e)) outs k.within
          (λ j h. new j (List.mem-append_right (held current) h)),
      k.separate,
    );
    below = (not_open current new, k.below);
  }
    where
      not_open :
          (cur : Option OpenPage)
          → ((j : ℕ) → Mem j (held cur ++ ids outs) → t.id ≢ j)
          → Below cur t
      not_open none h = tt
      not_open (some o) h = λ e. absurd (h o.shared mem-cons_self (sym e))

-- Only the buffers that something refers to matter.
pub IsCarved-arcs :
    (page_size : ℕ) {arcs arcs' : List ArcPage} {outs : List Span} (current : Option OpenPage)
    → ((j : ℕ) → Mem j (held current ++ ids outs) → page_of j arcs' ≡ page_of j arcs)
    → IsCarved page_size current arcs outs
    → IsCarved page_size current arcs' outs
IsCarved-arcs page_size {arcs} {arcs'} {outs} current same k = record {
  open_page = opened current same k.open_page;
  within =
      All-ids {R = λ j. page_of j arcs' ≡ page_of j arcs}
        (λ t (page, is, fits) e. (page, e ∙ is, fits)) outs k.within
        (λ j h. same j (List.mem-append_right (held current) h));
  separate = k.separate;
  below = k.below;
}
  where
    opened :
        (cur : Option OpenPage)
        → ((j : ℕ) → Mem j (held cur ++ ids outs) → page_of j arcs' ≡ page_of j arcs)
        → Opened page_size cur arcs
        → Opened page_size cur arcs'
    opened none h o = tt
    opened (some o) h (p, is, le) = (p, h o.shared mem-cons_self ∙ is, le)
