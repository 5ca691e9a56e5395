-- ===== src/Page/Builder.antt =====
-- src/page.rs: the methods of `PageBuilder`.
use paged_alloc.Base.{
  Result, ok, err, ℕ, ◌+◌, Bool, Option, none, some, List, leb, ltb, ◌==◌, if◌then◌else◌, length,
  take, wrapping_add, wrapping_sub,
}
use paged_alloc.Memory.{read_bytes}
use paged_alloc.World.{expect, World, returned, panicked, Act, pure, ◌>>=◌, ◌>>◌}
use paged_alloc.Page.{PageFull, PageBuilder, Page, store, page_size}

-- `capacity`.
abbrev pub capacity : World → ℕ
capacity = page_size

unfoldable pub is_empty : PageBuilder → Bool
is_empty b = b.len == 0

unfoldable pub remaining : PageBuilder → World → ℕ
remaining b w = wrapping_sub (capacity w) b.len

unfoldable pub as_slice : PageBuilder → Act World (List ℕ)
as_slice b = do p ← expect b.buf; λ w. returned (read_bytes w.mem.bytes p b.len) w

-- A closure given `as_mut_slice`, the whole buffer: what it leaves there, and its result; `none`
-- if it panics.
unfoldable pub fill : {A : Type 0} → (List ℕ → Option (List ℕ × A)) → PageBuilder → Act World A
fill init b = do
  p ← expect b.buf
  λ w. elim (init (read_bytes w.mem.bytes p (capacity w))) [
    | none ↦ panicked w
    | some (bs, a) ↦ (store p (take (capacity w) bs) >> pure a) w
  ]

unfoldable pub set_len : ℕ → PageBuilder → Act World PageBuilder
set_len len b w = if leb len (capacity w) then returned (record b { len = len }) w else panicked w

unfoldable pub append : List ℕ → PageBuilder → Act World (Result PageFull PageBuilder)
append bs b w =
    if ltb (capacity w) (wrapping_add b.len (length bs))
    then returned (err (record { capacity = capacity w; len = b.len; attempted = length bs })) w
    else (do
      p ← expect b.buf
      store (p + b.len) bs
      pure (ok (record b { len = wrapping_add b.len (length bs) })))
        w

-- `seal` takes the buffer, so that the destructor of the builder does nothing.
unfoldable pub seal : PageBuilder → Act World Page
seal b w =
    (do
      p ← expect b.buf
      pure (record {
        inner = record { buf = some p; capacity = capacity w; len = b.len; tenant = b.tenant };
        ref_count = 1;
      }))
      w
