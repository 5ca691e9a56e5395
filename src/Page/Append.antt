-- ===== src/Page/Append.antt =====
-- `PageBuilder::append` (src/page.rs).
use paged_alloc.Base.{
  ok, err, ℕ, ◌+◌, ◌≤◌, ◌<◌, ◌≡◌, refl, ap, ◌∙◌, Option, none, some, List, ◌++◌, arith, length, ◌^◌,
  wrapping_add, ge→ltb, lt→ltb,
}
use paged_alloc.Memory.{read_bytes, write_bytes}
use paged_alloc.Memory.Region.{SameOutside}
use paged_alloc.Memory.Copy.{write_bytes_outside, read_bytes-Same, read-write_bytes, read_bytes-add}
use paged_alloc.World.{expect, World, returned, with_bytes}
use paged_alloc.Page.{PageBuilder, page_size}
use paged_alloc.Page.Builder.{append, as_slice}

-- A write behind the first `k` bytes adds to what is read.
pub read-write_after :
    (m : ℕ → ℕ) (p k : ℕ) (bs : List ℕ)
    → read_bytes (write_bytes m (p + k) bs) p (k + length bs) ≡ read_bytes m p k ++ bs
read-write_after m p k bs =
    read_bytes-add (write_bytes m (p + k) bs) p k (length bs)
    ∙ ap (λ xs. xs ++ read_bytes (write_bytes m (p + k) bs) (p + k) (length bs))
        (read_bytes-Same p k (λ q lo hi. write_bytes_outside m (p + k) bs q (omega arith)))
    ∙ ap (λ xs. read_bytes m p k ++ xs) (read-write_bytes m (p + k) bs)

-- An append that fits.
pub record Appended (b : PageBuilder) (p : ℕ) (bs : List ℕ) (w : World) (b' : PageBuilder)
    (w' : World) : Type 0 where
  pub result : append bs b w ≡ returned (ok b') w'
  pub buf : b'.buf ≡ some p
  pub len : b'.len ≡ b.len + length bs
  pub contents : as_slice b' w' ≡ returned (read_bytes w.mem.bytes p b.len ++ bs) w'
  pub outside : SameOutside (p + b.len) (length bs) w.mem.bytes w'.mem.bytes
  pub live : w'.mem.live ≡ w.mem.live
  pub pool : w'.pool ≡ w.pool
  pub tenants : w'.tenants ≡ w.tenants

expect-some :
    {A : Type 0} (o : Option A) (a : A) (w : World) → o ≡ some a → expect o w ≡ returned a w
expect-some none a w e = cc
expect-some (some a') a w e = ap (λ t. returned t w) (let same : a' ≡ a = cc in same)

pub as_slice_lem :
    (b : PageBuilder) (p : ℕ) (w : World)
    → b.buf ≡ some p
    → as_slice b w ≡ returned (read_bytes w.mem.bytes p b.len) w
unfolding as_slice
as_slice_lem b p w held = rw (expect-some b.buf p w held, as_slice)

module _ (b : PageBuilder) (p : ℕ) (bs : List ℕ) (w : World) (held : b.buf ≡ some p) where
  append_result :
      b.len + length bs ≤ page_size w
      → b.len + length bs < 2 ^ 64
      → append bs b w
        ≡ returned
            (ok (record b { len = b.len + length bs }))
            (with_bytes w (write_bytes w.mem.bytes (p + b.len) bs))
  unfolding append
  append_result fits small =
      let whole : wrapping_add b.len (length bs) ≡ b.len + length bs = omega arith in
      rw (whole, ge→ltb (page_size w) (b.len + length bs) fits, expect-some b.buf p w held, append)

  -- An append that fits adds the bytes at the end of the page, and nothing else in memory, the pool
  -- or the counters changes.
  pub append_fits :
      b.len + length bs ≤ page_size w
      → b.len + length bs < 2 ^ 64
      → (b' : PageBuilder) × (w' : World) × Appended b p bs w b' w'
  append_fits fits small = (
    record b { len = b.len + length bs },
    with_bytes w (write_bytes w.mem.bytes (p + b.len) bs),
    record {
      result = append_result fits small;
      buf = held;
      len = refl;
      contents =
          slice (b.len + length bs) (write_bytes w.mem.bytes (p + b.len) bs)
          ∙ ap (λ xs. returned xs (with_bytes w (write_bytes w.mem.bytes (p + b.len) bs)))
              (read-write_after w.mem.bytes p b.len bs);
      outside = write_bytes_outside w.mem.bytes (p + b.len) bs;
      live = refl;
      pool = refl;
      tenants = refl;
    },
  )
    where
      slice :
          (len : ℕ) (bytes : ℕ → ℕ)
          → as_slice (record b { len = len }) (with_bytes w bytes)
            ≡ returned (read_bytes bytes p len) (with_bytes w bytes)
      slice len bytes = as_slice_lem (record b { len = len }) p (with_bytes w bytes) held

  -- An append past the end of the page.
  append_full :
      page_size w < b.len + length bs
      → b.len + length bs < 2 ^ 64
      → append bs b w
        ≡ returned (err (record { capacity = page_size w; len = b.len; attempted = length bs })) w
  unfolding append
  append_full over small =
      let whole : wrapping_add b.len (length bs) ≡ b.len + length bs = omega arith in
      rw (whole, lt→ltb (page_size w) (b.len + length bs) over)
