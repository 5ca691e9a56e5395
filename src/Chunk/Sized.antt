-- ===== src/Chunk/Sized.antt =====
-- src/chunk.rs: `ChunkPool::alloc_with` beside `ChunkPool::alloc_with_len`.
use paged_alloc.Base.{
  ℕ, ◌≡◌, refl, ap, inl, inr, Option, Option-cases, none, some, List, [], take, ◌+◌,
}
use paged_alloc.Memory.{read_bytes, write_bytes}
use paged_alloc.Alloc.{Layout, Memory}
use paged_alloc.World.{
  Run, Act, returned, panicked, aborted, out_of_fuel, and_then, unwinding, ◌>>=◌, ◌>>◌,
}
use paged_alloc.Chunk.{State, find_arc}
use paged_alloc.Chunk.Builder.{
  with_bytes, ChunkBuilder, Chunk, buf_of, fill, set_len, seal, drop_builder,
}
use paged_alloc.Chunk.Allocate.{allocate, alloc_with, alloc_with_len}

-- The closure, made to say how much it was given.
abbrev sized : ℕ → Option (List ℕ × Unit {0}) → Option (List ℕ × ℕ)
sized n none = none
sized n (some (bs, _)) = some (bs, n)

abbrev pub with_size : ℕ → (List ℕ → Option (List ℕ × Unit {0})) → List ℕ → Option (List ℕ × ℕ)
with_size n init bs = sized n (init bs)

by_result :
    (n : ℕ) (left : List ℕ → State) (w : State) (k : ℕ → Act State Chunk)
    (r : Option (List ℕ × Unit {0}))
    → and_then {B = Chunk}
        (elim r as (λ _. Run State (Unit {0})) [
          | none ↦ panicked w
          | some (bs, a) ↦ returned a (left bs)
        ])
        (λ _. k n)
      ≡ and_then
          (elim (sized n r) as (λ _. Run State ℕ) [
            | none ↦ panicked w
            | some (bs, len) ↦ returned len (left bs)
          ])
          k
by_result n left w k none = refl
by_result n left w k (some (bs, _)) = refl

fill-with_size :
    (n : ℕ) (init : List ℕ → Option (List ℕ × Unit {0})) (b : ChunkBuilder)
    (k : ℕ → Act State Chunk) (w : State)
    → and_then (fill init b w) (λ _. k n) ≡ and_then (fill (with_size n init) b w) k
unfolding fill
fill-with_size n init b k w = elim (Option-cases b.packed) [
  | inl e ↦ rw (e, fill) (by_result n (λ _. w) w k (init []))
  | inr (i, e) ↦ elim (Option-cases (find_arc i w.arcs)) [
    | inl g ↦ rw (e, fill) (rw (g, buf_of) refl)
    | inr (a, g) ↦
        rw (e, fill)
          (rw (g, buf_of)
            (by_result n
              (λ bs.
                with_bytes w (write_bytes w.mem.bytes (a.page.buf + b.offset) (take b.capacity bs)))
              w k (init (read_bytes w.mem.bytes (a.page.buf + b.offset) b.capacity))))
  ]
]

module _ (n : ℕ) (init : List ℕ → Option (List ℕ × Unit {0})) where
  from_run :
      (r : Run State ChunkBuilder)
      → and_then r (λ b. unwinding (drop_builder b) (fill init b >> (set_len n b >>= seal)))
        ≡ and_then r (λ b.
          unwinding (drop_builder b) (fill (with_size n init) b >>= λ len. set_len len b >>= seal))
  from_run (returned b w) =
      ap (λ r. unwinding (drop_builder b) (λ _. r) w)
        (fill-with_size n init b (λ len. set_len len b >>= seal) w)
  from_run (panicked w) = refl
  from_run aborted = refl
  from_run out_of_fuel = refl

  -- `alloc_with` of a chunk is `alloc_with_len` with a closure that names the whole length: they
  -- end alike, in the same state, on every input and on every path, panics and failures included.
  pub alloc_with-alloc_with_len :
      (place : Layout → Memory → ℕ) (t : ℕ) (w : State)
      → alloc_with place t n init w ≡ alloc_with_len place t n (with_size n init) w
  unfolding alloc_with alloc_with_len
  alloc_with-alloc_with_len place t w = from_run (allocate place t n w)
