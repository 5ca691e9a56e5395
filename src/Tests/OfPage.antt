-- ===== src/Tests/OfPage.antt =====
-- The theorems on src/page.rs at concrete inputs.
use paged_alloc.Base.{length, ap, sym, ℕ, ◌≡◌, ◌⊎◌, refl, some, none, List, [], ◌∷◌, ◌++◌, arith}
use paged_alloc.Page.Filled.{Init, Ended, alloc_with_len_cases}
use paged_alloc.Source.Heap.{as_source}
use paged_alloc.Pool.{push_return}
use paged_alloc.Tenant.{on, record_release}
use paged_alloc.World.{World}
use paged_alloc.Page.{PageBuilder, drop_page}
use paged_alloc.Page.Allocate.{alloc_with_len, alloc_from}
use paged_alloc.Page.Handout.{Refused, Holds, Handed}
use paged_alloc.Page.Append.{Appended, append_fits}
use paged_alloc.Page.Sealed.{Filed, sealed, alloc_from-Filed, drop_page-last}
use paged_alloc.Tests.Data.{
  source, contract, one_used-IsPool, one_returned-IsPool, busy_world, returned_world,
}

abbrev text : List ℕ
text = 104 ∷ 105 ∷ []

alloc_from-Filed_example :
    Refused source returned_world [] (8 ∷ []) (alloc_from 0 text returned_world)
    ⊎ ((p : ℕ) × (w' : World) × Filed contract returned_world [] (8 ∷ []) [] [] 0 text p w')
unfolding as_source push_return
alloc_from-Filed_example =
    alloc_from-Filed contract returned_world [] (8 ∷ []) [] [] 0 text (omega arith)
      one_returned-IsPool

drop_page-last_example :
    let (left, w') = drop_page (sealed 0 8 source.page_size 2) busy_world in
    (left ≡ none)
    × Holds contract w' [] (8 ∷ []) [] []
    × (w'.tenants ≡ on busy_world.tenants 0 (λ u. record_release u source.page_size))
drop_page-last_example = drop_page-last contract busy_world 0 8 2 [] [] [] [] one_used-IsPool

abbrev half : PageBuilder
half = record { buf = some 8; len = 62; tenant = 0 }

append_fits_example : (b' : PageBuilder) × (w' : World) × Appended half 8 text busy_world b' w'
unfolding as_source
append_fits_example = append_fits half 8 text busy_world refl (omega arith) (omega arith)

-- A pool of 8-byte pages.
abbrev tiny_world : World
tiny_world = record busy_world {
  pool = record busy_world.pool { shared = record busy_world.pool.shared { page_size = 8 } };
}

abbrev long : List ℕ
long = text ++ text ++ text ++ text ++ text

-- A closure that leaves the page as it is and names three bytes.
abbrev three : Init
three = λ xs. some (xs, 3)

three-keeps : (xs ys : List ℕ) (n : ℕ) → three xs ≡ some (ys, n) → length ys ≡ length xs
three-keeps xs ys n e =
    let same : (xs, 3) ≡ (ys, n) = cc in ap (λ (t : List ℕ × ℕ). length t.0) (sym same)

alloc_with_len_cases_example :
    Refused source returned_world [] (8 ∷ []) (alloc_with_len 0 three returned_world)
    ⊎ ((p : ℕ) × (w' : World) × Handed contract 0 returned_world [] (8 ∷ []) [] [] p w'
        × Ended contract 0 three returned_world [] (8 ∷ []) [] [] p w')
alloc_with_len_cases_example =
    alloc_with_len_cases contract 0 three returned_world [] (8 ∷ []) [] [] three-keeps
      one_returned-IsPool
