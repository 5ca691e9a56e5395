-- ===== src/Chunk/Failure.antt =====
-- src/chunk.rs: calls that end because memory has run out.
use paged_alloc.Base.{◌≡◌, ap, ◌∙◌, ◌⊎◌, inl, inr, none, List, []}
use paged_alloc.Alloc.{Block}
use paged_alloc.Source.{PageSource, Contract}
use paged_alloc.World.{Run, Act, aborted, fail, and_then, and_then-fail}
use paged_alloc.Chunk.{State}
use paged_alloc.Chunk.Carved.{Span}
use paged_alloc.Chunk.Dispatch.{refused}
use paged_alloc.Chunk.Holds.{IsChunks}

module _ {s : PageSource} (c : Contract s) (rest : List Block) (outs : List Span) where
  -- The source was asked for a page with none at hand, and failed. Nothing was handed out or given back,
  -- and a panic leaves the invariant but for the count of the page that was to come.
  pub record Refused {A : Type 0} (r : Run State A) : Type 0 where
    pub before : State
    pub chunks : IsChunks c before [] [] rest outs
    pub source : s.allocate before.mem ≡ none
    pub result : r ≡ fail s.unwinds (refused before)

  pub Refused-and_then :
      {A B : Type 0} {r : Run State A} (f : A → Act State B) → Refused r → Refused (and_then r f)
  Refused-and_then f k = record {
    before = k.before;
    chunks = k.chunks;
    source = k.source;
    result = ap (λ r. and_then r f) k.result ∙ and_then-fail s.unwinds (refused k.before) f;
  }

  -- Either the source, or the global allocator for a block of its own.
  abbrev pub Fails : {A : Type 0} → Run State A → Type 0
  Fails r = (r ≡ aborted) ⊎ Refused r

  pub Fails-and_then :
      {A B : Type 0} {r : Run State A} (f : A → Act State B) → Fails r → Fails (and_then r f)
  Fails-and_then f (inl e) = inl (ap (λ r. and_then r f) e)
  Fails-and_then f (inr k) = inr (Refused-and_then f k)
