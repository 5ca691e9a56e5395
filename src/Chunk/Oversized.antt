-- ===== src/Chunk/Oversized.antt =====
-- src/chunk.rs: the oversized path, and `allocate_aligned` as a whole.
use paged_alloc.Base.{
  ℕ, ◌+◌, ◌*◌, ◌/◌, ◌%◌, ◌^◌, ◌<◌, ◌≤◌, ◌≡◌, refl, ap, sym, subst, ◌∙◌, inl, inr, ◌⊎◌, none, some,
  List, arith, ==_refl, true, max, leb_cases, is_power_of_two, is_power_of_two-power,
}
use paged_alloc.Base.Bits.{pow_pos}
use paged_alloc.Alloc.{Layout, Block, Memory, from_size_align}
use paged_alloc.Alloc.Zeroed.{IsAllocator}
use paged_alloc.Source.{PageSource, Contract}
use paged_alloc.World.{returned, panicked, aborted}
use paged_alloc.Chunk.{State, PackedPage, to_heap, page_size, default_align, charge}
use paged_alloc.Chunk.Builder.{ChunkBuilder}
use paged_alloc.Chunk.Carved.{Span, page_of}
use paged_alloc.Chunk.Acquire.{heap_page_cases, with_arc}
use paged_alloc.Chunk.Fit.{small_power}
use paged_alloc.Chunk.Holds.{IsChunks}
use paged_alloc.Chunk.Failure.{Fails, Refused}
use paged_alloc.Chunk.Paths.{Taken, path-Taken}
use paged_alloc.Chunk.Grant.{
  Granted, IsChunks-stats, alone-IsChunks, at_only, zero-Granted, packed-Granted, dedicated-Granted,
}
use paged_alloc.Chunk.Dispatch.{new_builder, count_oversized, allocate_oversized}
use paged_alloc.Chunk.Allocate.{
  Path4, zero_path, packed_path, dedicated_path, oversized_path, path, run_path, allocate_aligned,
}

-- The alignment that the oversized path asks for.
max_power : (k : ℕ) → k < 64 → is_power_of_two (max (2 ^ k) default_align) ≡ true
max_power k lt = elim (leb_cases (2 ^ k) 8) [
  | inl (_, le) ↦
      let same : max (2 ^ k) default_align ≡ 2 ^ 3 = omega arith in
      ap is_power_of_two same ∙ is_power_of_two-power 3 (omega arith)
  | inr (_, gt) ↦
      let same : max (2 ^ k) default_align ≡ 2 ^ k = omega arith in
      ap is_power_of_two same ∙ is_power_of_two-power k lt
]

quotient : (p a : ℕ) → 0 < a → p % a ≡ 0 → p ≡ (p / a) * a
quotient p a pos is = grind arith

-- An address that the stricter alignment divides, the requested one divides.
max_multiple : (k p : ℕ) → p % (max (2 ^ k) default_align) ≡ 0 → (q : ℕ) × (p ≡ q * 2 ^ k)
max_multiple k p is = elim (leb_cases (2 ^ k) 8) [
  | inl (_, le) ↦
      let same : max (2 ^ k) default_align ≡ 8 = omega arith in
      small_power k p le (ap (λ (a : ℕ). p % a) (sym same) ∙ is)
  | inr (_, gt) ↦
      let same : max (2 ^ k) default_align ≡ 2 ^ k = omega arith in
      (p / 2 ^ k, quotient p (2 ^ k) (pow_pos k) (ap (λ (a : ℕ). p % a) (sym same) ∙ is))
]

-- A layout exists exactly when the padded size is no more than `isize::MAX`.
layout_cases :
    (size align : ℕ)
    → is_power_of_two align ≡ true
    → ((from_size_align size align ≡ none) × (2 ^ 63 < size + align))
      ⊎ (from_size_align size align ≡ some (record { size = size; align = align }))
unfolding from_size_align
layout_cases size align power = elim (leb_cases (size + align) (2 ^ 63)) [
  | inl (fits, _) ↦ inr (rw (power, fits, from_size_align) refl)
  | inr (over, gt) ↦ inl (rw (power, over, from_size_align) refl, gt)
]

module _ {s : PageSource} (c : Contract s) {place : Layout → Memory → ℕ} (good : IsAllocator place)
    (t size k : ℕ) (rest : List Block) (outs : List Span) (w : State) (free queued : List ℕ)
    (chunks : IsChunks c w free queued rest outs) where
  oversized-Granted :
      k < 64
      → size < 2 ^ 32
      → 0 < size
      → (allocate_oversized place t size (2 ^ k) w ≡ aborted)
        ⊎ ((allocate_oversized place t size (2 ^ k) w ≡ panicked w)
            × (2 ^ 63 < size + max (2 ^ k) default_align))
        ⊎ ((b : ChunkBuilder) × (w' : State) × (allocate_oversized place t size (2 ^ k) w
              ≡ returned b w')
            × Granted c t size k rest outs b w')
  unfolding allocate_oversized charge
  oversized-Granted lt small pos =
      elim (layout_cases size (max (2 ^ k) default_align) (max_power k lt)) [
        | inl (none_fits, over) ↦ inr (inl (rw (none_fits, allocate_oversized) refl, over))
        | inr layout ↦
            let l : Layout = record { size = size; align = max (2 ^ k) default_align } in
            elim (heap_page_cases c free queued rest good w l _ pos chunks.counted) [
              | inl failed ↦ inl (rw (layout, failed, allocate_oversized) refl)
              | inr (p, m, aligned, did, left) ↦
                  let page : PackedPage = record { buf = p; release = to_heap l } in
                  let u = with_arc w page w.pool.pages m in
                  let here : page_of w.next_arc u.arcs ≡ some page = rw (==_refl w.next_arc) refl in
                  let (q, multiple) = max_multiple k p aligned in
                  inr (
                    inr (
                      new_builder (some w.next_arc) t size 0 size,
                      count_oversized size (charge t size u),
                      rw (layout, did, allocate_oversized) refl,
                      record {
                        free = free;
                        queued = queued;
                        chunks = IsChunks-stats c u _ _ (
                            alone-IsChunks c w free queued rest outs page w.pool.pages m free queued
                              size chunks left (omega arith));
                        tenant = refl;
                        capacity = omega arith;
                        empty = refl;
                        buffer = λ more. (w.next_arc, refl);
                        aligned =
                            λ j e. at_only k w.next_arc 0 page u.arcs here q (omega arith) j e;
                      },
                    ))
            ]
      ]

  allocate_aligned-power :
      (j : ℕ)
      → j < 64
      → allocate_aligned place t size (2 ^ j) w
        ≡ run_path place t size (2 ^ j) (path (page_size w) w.pool.threshold size (2 ^ j)) w
  unfolding allocate_aligned
  allocate_aligned-power j lt = rw (is_power_of_two-power j lt, allocate_aligned) refl

  pub allocate_aligned-Granted :
      k < 64
      → size < 2 ^ 32
      → s.page_size < 2 ^ 32
      → w.pool.threshold ≤ s.page_size
      → Fails c rest outs (allocate_aligned place t size (2 ^ k) w)
        ⊎ ((allocate_aligned place t size (2 ^ k) w ≡ panicked w)
            × (2 ^ 63 < size + max (2 ^ k) default_align))
        ⊎ ((b : ChunkBuilder) × (w' : State) × (allocate_aligned place t size (2 ^ k) w
              ≡ returned b w')
            × Granted c t size k rest outs b w')
  allocate_aligned-Granted lt small page half =
      by_path (path s.page_size w.pool.threshold size (2 ^ k))
        (path-Taken s.page_size w.pool.threshold size (2 ^ k) half (omega arith)) same
    where
      same :
          allocate_aligned place t size (2 ^ k) w
          ≡ run_path place t size (2 ^ k) (path s.page_size w.pool.threshold size (2 ^ k)) w
      same =
          allocate_aligned-power k lt
          ∙ ap (λ (n : ℕ). run_path place t size (2 ^ k) (path n w.pool.threshold size (2 ^ k)) w)
              chunks.counted.pool.page_size

      by_path :
          (taken : Path4)
          → Taken taken s.page_size size (2 ^ k)
          → allocate_aligned place t size (2 ^ k) w ≡ run_path place t size (2 ^ k) taken w
          → Fails c rest outs (allocate_aligned place t size (2 ^ k) w)
            ⊎ ((allocate_aligned place t size (2 ^ k) w ≡ panicked w)
                × (2 ^ 63 < size + max (2 ^ k) default_align))
            ⊎ ((b : ChunkBuilder) × (w' : State) × (allocate_aligned place t size (2 ^ k) w
                  ≡ returned b w')
                × Granted c t size k rest outs b w')
      by_path zero_path is e =
          let (b, w', did, granted) = zero-Granted c t size k rest outs w free queued chunks is in
          inr (inr (b, w', e ∙ did, granted))
      by_path packed_path (pos, packed) e =
          elim (packed-Granted c t size k rest outs w free queued chunks lt page packed) [
            | inl failed ↦ inl (inr (subst (Refused c rest outs) (sym e) failed))
            | inr (b, w', did, granted) ↦ inr (inr (b, w', e ∙ did, granted))
          ]
      by_path dedicated_path (pos, fits, align) e =
          elim (dedicated-Granted c t size k rest outs w free queued chunks page fits align) [
            | inl failed ↦ inl (inr (subst (Refused c rest outs) (sym e) failed))
            | inr (b, w', did, granted) ↦ inr (inr (b, w', e ∙ did, granted))
          ]
      by_path oversized_path pos e = elim (oversized-Granted lt small pos) [
        | inl failed ↦ inl (inl (e ∙ failed))
        | inr (inl (no_layout, over)) ↦ inr (inl (e ∙ no_layout, over))
        | inr (inr (b, w', did, granted)) ↦ inr (inr (b, w', e ∙ did, granted))
      ]
