-- ===== src/Tenant/Account.antt =====
-- The counters of src/tenant.rs against the list of what the tenant holds.
use paged_alloc.Base.{
  ℕ, ◌+◌, ◌%◌, ◌≤◌, ◌<◌, ◌≡◌, List, [], ◌∷◌, ◌++◌, arith, length, length-append, word, max,
}
use paged_alloc.Tenant.{
  TenantStats, record_allocate, record_release, record_chunk_allocate, record_chunk_release,
}

-- One call of the allocating and releasing methods: a page or a chunk, of so many bytes.
pub data Event : Type 0 where
  page_in page_out chunk_in chunk_out : ℕ → Event

pub apply : TenantStats → Event → TenantStats
apply t (page_in n) = record_allocate t n
apply t (page_out n) = record_release t n
apply t (chunk_in n) = record_chunk_allocate t n
apply t (chunk_out n) = record_chunk_release t n

pub run : TenantStats → List Event → TenantStats
run t [] = t
run t (e ∷ es) = run (apply t e) es

-- The sizes of the pages and of the chunks that are held.
pub record Holding : Type 0 where
  pub pages : List ℕ
  pub chunks : List ℕ

abbrev pub sum : List ℕ → ℕ
sum [] = 0
sum (x ∷ xs) = x + sum xs

abbrev pub total : Holding → ℕ
total h = sum h.pages + sum h.chunks

-- What a legal history does to the holding: only what is held is released.
pub data Moves : Holding → Event → Holding → Type 0 where
  page_taken : (h : Holding) (n : ℕ) → Moves h (page_in n) (record h { pages = n ∷ h.pages })
  chunk_taken : (h : Holding) (n : ℕ) → Moves h (chunk_in n) (record h { chunks = n ∷ h.chunks })
  page_given :
      (xs ys cs : List ℕ) (n : ℕ)
      → Moves
          (record { pages = xs ++ n ∷ ys; chunks = cs })
          (page_out n)
          (record { pages = xs ++ ys; chunks = cs })
  chunk_given :
      (ps xs ys : List ℕ) (n : ℕ)
      → Moves
          (record { pages = ps; chunks = xs ++ n ∷ ys })
          (chunk_out n)
          (record { pages = ps; chunks = xs ++ ys })

pub data History : Holding → List Event → Holding → Type 0 where
  done : {h : Holding} → History h [] h
  then :
      {h i j : Holding} {e : Event} {es : List Event}
      → Moves h e i
      → History i es j
      → History h (e ∷ es) j

-- The counters state the holding, as 64-bit words do.
pub record Tracks (t : TenantStats) (h : Holding) : Type 0 where
  pub bytes : t.bytes_in_use ≡ total h % word
  pub pages : t.pages_in_use ≡ length h.pages % word
  pub chunks : t.chunks_in_use ≡ length h.chunks % word

sum-append : (xs ys : List ℕ) → sum (xs ++ ys) ≡ sum xs + sum ys
sum-append [] ys = omega arith
sum-append (x ∷ xs) ys = omega (arith, sum-append xs ys)

Moves-Tracks :
    {h i : Holding} {e : Event} (t : TenantStats) → Moves h e i → Tracks t h → Tracks (apply t e) i
unfolding apply record_allocate record_release record_chunk_allocate record_chunk_release
Moves-Tracks t (page_taken h n) k = ground arith
Moves-Tracks t (chunk_taken h n) k = ground arith
Moves-Tracks t (page_given xs ys cs n) k = ground (
  arith,
  sum-append xs (n ∷ ys),
  sum-append xs ys,
  length-append xs (n ∷ ys),
  length-append xs ys,
)
Moves-Tracks t (chunk_given ps xs ys n) k = ground (
  arith,
  sum-append xs (n ∷ ys),
  sum-append xs ys,
  length-append xs (n ∷ ys),
  length-append xs ys,
)

-- After any history in which only what is held is released, the counters of a tenant state what is
-- held, as 64-bit words do.
pub History-Tracks :
    {h i : Holding} {es : List Event} (t : TenantStats)
    → History h es i
    → Tracks t h
    → Tracks (run t es) i
unfolding run
History-Tracks t done k = k
History-Tracks t (then m rest) k = History-Tracks _ rest (Moves-Tracks t m k)

-- The most bytes held at once, the start included.
unfoldable pub high_water : {h i : Holding} {es : List Event} → History h es i → ℕ
high_water {h} done = total h
high_water {h} (then m rest) = max (total h) (high_water rest)

total-le-high_water :
    {h i : Holding} {es : List Event} (r : History h es i) → total h ≤ high_water r
unfolding high_water
total-le-high_water done = omega arith
total-le-high_water (then m rest) = omega arith

-- One step moves the peak to the new total, if that is higher.
Moves-peak :
    {h i : Holding} {e : Event} (t : TenantStats)
    → Moves h e i
    → Tracks t h
    → total h ≤ t.peak_bytes_in_use
    → total i < word
    → total h < word
    → (apply t e).peak_bytes_in_use ≡ max t.peak_bytes_in_use (total i)
unfolding apply record_allocate record_release record_chunk_allocate record_chunk_release
Moves-peak t (page_taken h n) k le lt lt' = ground arith
Moves-peak t (chunk_taken h n) k le lt lt' = ground arith
Moves-peak t (page_given xs ys cs n) k le lt lt' =
    ground (arith, sum-append xs (n ∷ ys), sum-append xs ys)
Moves-peak t (chunk_given ps xs ys n) k le lt lt' =
    ground (arith, sum-append xs (n ∷ ys), sum-append xs ys)

-- If the bytes held never reach 2^64, the peak counter is the most that was ever held.
pub peak-high_water :
    {h i : Holding} {es : List Event} (t : TenantStats) (r : History h es i)
    → Tracks t h
    → total h ≤ t.peak_bytes_in_use
    → high_water r < word
    → (run t es).peak_bytes_in_use ≡ max t.peak_bytes_in_use (high_water r)
unfolding run high_water
peak-high_water t done k le lt = omega arith
peak-high_water t (then m rest) k le lt =
    let step = Moves-peak t m k le (omega (arith, total-le-high_water rest)) (omega arith) in
    omega (
      arith,
      step,
      total-le-high_water rest,
      peak-high_water _ rest (Moves-Tracks t m k) (omega (arith, step)) (omega arith),
    )
