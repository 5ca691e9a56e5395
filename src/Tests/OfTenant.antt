-- ===== src/Tests/OfTenant.antt =====
-- The theorems on src/tenant.rs at a concrete history.
use paged_alloc.Base.{◌≡◌, refl, List, [], ◌∷◌, max, arith}
use paged_alloc.Tenant.{fresh}
use paged_alloc.Tenant.Account.{
  Event, page_in, page_out, chunk_in, run, Holding, page_taken, chunk_taken, page_given, History,
  done, then, Tracks, History-Tracks, high_water, peak-high_water,
}

abbrev nothing : Holding
nothing = record { pages = []; chunks = [] }

-- A page, a chunk, the page back, another chunk.
abbrev calls : List Event
calls = page_in 64 ∷ chunk_in 10 ∷ page_out 64 ∷ chunk_in 20 ∷ []

abbrev history : History nothing calls (record { pages = []; chunks = 20 ∷ 10 ∷ [] })
history = then (page_taken nothing 64) (
    then (chunk_taken (record { pages = 64 ∷ []; chunks = [] }) 10) (
      then (page_given [] [] (10 ∷ []) 64)
        (then (chunk_taken (record { pages = []; chunks = 10 ∷ [] }) 20) done)))

fresh-Tracks : Tracks fresh nothing
fresh-Tracks = record { bytes = refl; pages = refl; chunks = refl }

History-Tracks_example : Tracks (run fresh calls) (record { pages = []; chunks = 20 ∷ 10 ∷ [] })
History-Tracks_example = History-Tracks fresh history fresh-Tracks

peak-high_water_example : (run fresh calls).peak_bytes_in_use ≡ max 0 (high_water history)
unfolding high_water
peak-high_water_example = peak-high_water fresh history fresh-Tracks (omega arith) (omega arith)
