-- ===== src/Tests/OfFilled.antt =====
-- The theorems on `alloc_with_len` and `alloc_with` of src/chunk.rs, at concrete inputs: a closure that
-- sets the first byte.
use paged_alloc.Base.{ℕ, ◌≡◌, Option, some, List, [], ◌∷◌}
use paged_alloc.Alloc.Bump.{bump}
use paged_alloc.Chunk.Builder.{Chunk}
use paged_alloc.Chunk.Allocate.{alloc_with, alloc_with_len}
use paged_alloc.Chunk.Outcomes.{Filled}
use paged_alloc.Chunk.Sized.{with_size, alloc_with-alloc_with_len}
use paged_alloc.Tests.Data.{chunks}

abbrev set_first : List ℕ → List ℕ
set_first [] = []
set_first (x ∷ xs) = 104 ∷ xs

abbrev first_of_20 : List ℕ → Option (List ℕ × ℕ)
first_of_20 xs = some (set_first xs, 1)

abbrev first_only : List ℕ → Option (List ℕ × Unit {0})
first_only xs = some (set_first xs, tt)

alloc_with-alloc_with_len_example :
    alloc_with bump 0 20 first_only chunks
    ≡ alloc_with_len bump 0 20 (with_size 20 first_only) chunks
alloc_with-alloc_with_len_example = alloc_with-alloc_with_len 20 first_only bump 0 chunks
