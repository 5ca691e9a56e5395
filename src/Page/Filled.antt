-- ===== src/Page/Filled.antt =====
-- `PagePool::alloc_with_len` (src/pool.rs): a closure fills the page and says how much of it counts.
use paged_alloc.Base.{
  ℕ, ◌≤◌, ◌<◌, ◌≡◌, refl, ap, ◌∙◌, subst, Option, none, some, List, ◌∷◌, ◌⊎◌, inl, inr, arith,
  length, take, take-all, le→leb, gt→leb, leb_cases, Option-cases,
}
use paged_alloc.Memory.{read_bytes, write_bytes}
use paged_alloc.Memory.Copy.{
  write_bytes_outside, read-write_bytes, length-read_bytes, read_bytes-take,
}
use paged_alloc.Alloc.{Block}
use paged_alloc.Source.{PageSource, Contract}
use paged_alloc.Tenant.{on, record_release}
use paged_alloc.Pool.Return.{push_return-IsPool}
use paged_alloc.Pool.Write.{write-IsPool}
use paged_alloc.Pool.Reuse.{left_free, left_queued}
use paged_alloc.World.{unwinding, ◌>>=◌, World, returned, panicked, with_bytes}
use paged_alloc.Page.{builder, page_size, release, drop_builder, as_slice}
use paged_alloc.Page.Builder.{seal, set_len, fill}
use paged_alloc.Page.Allocate.{allocate, alloc_with_len}
use paged_alloc.Page.Handout.{Refused, Refused-and_then, Holds, Handed, allocate_cases}
use paged_alloc.Page.Sealed.{sealed, as_slice_lem}

abbrev pub Init : Type 0
Init = List ℕ → Option (List ℕ × ℕ)

-- What the closure finds in the buffer of the page.
abbrev pub found_at : ℕ → World → List ℕ
found_at p w = read_bytes w.mem.bytes p (page_size w)

abbrev pub stored : ℕ → List ℕ → World → World
stored p bs w = with_bytes w (write_bytes w.mem.bytes p (take (page_size w) bs))

module _ (t : ℕ) (init : Init) (w w' : World) (p : ℕ)
    (took : allocate t w ≡ returned (builder t p) w') where
  closure_panics :
      init (found_at p w') ≡ none
      → alloc_with_len t init w ≡ panicked (release t p (page_size w') w')
  unfolding alloc_with_len fill drop_builder
  closure_panics e = rw (took, e, fill) refl

  length_panics :
      (bs : List ℕ) (len : ℕ)
      → init (found_at p w') ≡ some (bs, len)
      → page_size w' < len
      → alloc_with_len t init w ≡ panicked (release t p (page_size w') (stored p bs w'))
  unfolding alloc_with_len fill drop_builder set_len
  length_panics bs len e over = rw (took, e, fill, gt→leb len (page_size w') over) refl

  page_sealed :
      (bs : List ℕ) (len : ℕ)
      → init (found_at p w') ≡ some (bs, len)
      → len ≤ page_size w'
      → alloc_with_len t init w ≡ returned (sealed t p (page_size w') len) (stored p bs w')
  unfolding alloc_with_len fill set_len seal
  page_sealed bs len e fits = rw (took, e, fill, le→leb len (page_size w') fits) refl

module _ {s : PageSource} (c : Contract s) (t : ℕ) (init : Init) (free queued used : List ℕ)
    (rest : List Block) where
  -- After the closure panics, or names a length that the page does not have: the page is on the return
  -- queue, and the tenant is refunded.
  pub record Undone (w' : World) (p : ℕ) (w'' : World) : Type 0 where
    pub why :
        (init (found_at p w') ≡ none)
        ⊎ ((bs : List ℕ) × (len : ℕ) × (init (found_at p w') ≡ some (bs, len))
            × (s.page_size < len))
    pub holds : Holds c w'' free (p ∷ queued) used rest
    pub tenants : w''.tenants ≡ on w'.tenants t (λ u. record_release u s.page_size)

  -- The page has what the closure left there, up to the length that it named.
  pub record Filled (w' : World) (p len : ℕ) (w'' : World) : Type 0 where
    pub bs : List ℕ
    pub closure : init (found_at p w') ≡ some (bs, len)
    pub holds : Holds c w'' free queued (p ∷ used) rest
    pub contents : as_slice (sealed t p s.page_size len) w'' ≡ returned (take len bs) w''
    pub tenants : w''.tenants ≡ w'.tenants

  released-Holds :
      (p : ℕ) (w : World)
      → Holds c w free queued (p ∷ used) rest
      → Holds c (release t p (page_size w) w) free (p ∷ queued) used rest
  unfolding release
  released-Holds p w k = push_return-IsPool c w.pool w.mem p free queued used rest k

  stored-Holds :
      (p : ℕ) (bs : List ℕ) (w : World)
      → length bs ≡ page_size w
      → Holds c w free queued (p ∷ used) rest
      → Holds c (stored p bs w) free queued (p ∷ used) rest
  stored-Holds p bs w long k =
      let all : take (page_size w) bs ≡ bs = subst (λ n. take n bs ≡ bs) long (take-all bs) in
      write-IsPool c w.pool w.mem (stored p bs w).mem p free queued used rest
        (rw all (λ q out. write_bytes_outside w.mem.bytes p bs q (omega (arith, k.page_size)))) refl
        k

  released-tenants :
      (p : ℕ) (w : World)
      → page_size w ≡ s.page_size
      → (release t p (page_size w) w).tenants ≡ on w.tenants t (λ u. record_release u s.page_size)
  unfolding release
  released-tenants p w e = ap (λ (n : ℕ). on w.tenants t (λ u. record_release u n)) e

  stored-contents :
      (p : ℕ) (bs : List ℕ) (len : ℕ) (w : World)
      → length bs ≡ page_size w
      → len ≤ page_size w
      → read_bytes (stored p bs w).mem.bytes p len ≡ take len bs
  stored-contents p bs len w long fits =
      let all : take (page_size w) bs ≡ bs = subst (λ n. take n bs ≡ bs) long (take-all bs) in
      rw all (
        read_bytes-take (write_bytes w.mem.bytes p bs) p len (length bs) (omega arith)
        ∙ ap (take len) (read-write_bytes w.mem.bytes p bs))

module _ {s : PageSource} (c : Contract s) (t : ℕ) (init : Init) (w : World)
    (free queued used : List ℕ) (rest : List Block) where
  abbrev pub Ended : ℕ → World → Type 0
  Ended p w' =
      ((w'' : World) × (alloc_with_len t init w ≡ panicked w'')
        × Undone c t init (left_free free queued) (left_queued free queued) used rest w' p w'')
      ⊎ ((len : ℕ) × (w'' : World) × (len ≤ s.page_size)
          × (alloc_with_len t init w ≡ returned (sealed t p s.page_size len) w'')
          × Filled c t init (left_free free queued) (left_queued free queued) used rest w' p len
              w'')

  panicked-Ended :
      (p : ℕ) (w' : World)
      → allocate t w ≡ returned (builder t p) w'
      → Handed c t w free queued used rest p w'
      → init (found_at p w') ≡ none
      → Ended p w'
  panicked-Ended p w' took got e = inl (
    release t p (page_size w') w',
    closure_panics t init w w' p took e,
    record {
      why = inl e;
      holds =
          released-Holds c t init (left_free free queued) (left_queued free queued) used rest p w'
            got.holds;
      tenants =
          released-tenants c t init (left_free free queued) (left_queued free queued) used rest p w'
            got.holds.page_size;
    },
  )

  named-Ended :
      (p : ℕ) (w' : World) (bs : List ℕ) (len : ℕ)
      → allocate t w ≡ returned (builder t p) w'
      → Handed c t w free queued used rest p w'
      → init (found_at p w') ≡ some (bs, len)
      → length bs ≡ page_size w'
      → Ended p w'
  named-Ended p w' bs len took got e long =
      let kept =
        stored-Holds c t init (left_free free queued) (left_queued free queued) used rest p bs w'
          long got.holds in
      elim (leb_cases len (page_size w')) [
        | inl (_, fits) ↦ inr (
          len,
          stored p bs w',
          omega (arith, got.holds.page_size),
          page_sealed t init w w' p took bs len e fits
              ∙ ap (λ (n : ℕ). returned (sealed t p n len) (stored p bs w')) got.holds.page_size,
          record {
            bs = bs;
            closure = e;
            holds = kept;
            contents =
                as_slice_lem t p s.page_size len (stored p bs w')
                ∙ ap (λ xs. returned xs (stored p bs w'))
                    (stored-contents c t init (left_free free queued) (left_queued free queued) used
                      rest p bs len w' long fits);
            tenants = refl;
          },
        )
        | inr (_, over) ↦ inl (
          release t p (page_size w') (stored p bs w'),
          length_panics t init w w' p took bs len e over,
          record {
            why = inr (bs, len, e, omega (arith, got.holds.page_size));
            holds =
                released-Holds c t init (left_free free queued) (left_queued free queued) used rest
                  p (stored p bs w') kept;
            tenants =
                released-tenants c t init (left_free free queued) (left_queued free queued) used
                  rest p (stored p bs w') got.holds.page_size;
          },
        )
      ]

  -- For a closure that keeps the length of the slice it is given, `alloc_with_len` fails only where
  -- no page is free and the source fails, and then it ends the process or panics as the source
  -- does, with only the count of the page that did not come changed; otherwise a page is taken: it
  -- panics if the closure does or names a length above that of a page, and then the page is on the
  -- return queue and the tenant refunded; otherwise it gives a page that reads as what the closure
  -- left there, up to the length that it named; in both cases the invariant of the pool is kept.
  pub alloc_with_len_cases :
      ((xs ys : List ℕ) (n : ℕ) → init xs ≡ some (ys, n) → length ys ≡ length xs)
      → Holds c w free queued used rest
      → Refused s w free queued (alloc_with_len t init w)
        ⊎ ((p : ℕ) × (w' : World) × Handed c t w free queued used rest p w' × Ended p w')
  unfolding alloc_with_len
  alloc_with_len_cases keeps k = elim (allocate_cases c t w free queued used rest k) [
    | inl refusal ↦ inl (
        Refused-and_then
          (λ b. unwinding (drop_builder b) (fill init b >>= λ len. set_len len b >>= seal)) refusal)
    | inr (p, w', took, got) ↦ inr (
      p,
      w',
      got,
      elim (Option-cases (init (found_at p w'))) [
        | inl e ↦ panicked-Ended p w' took got e
        | inr ((bs, len), e) ↦
            named-Ended p w' bs len took got e
              (keeps (found_at p w') bs len e ∙ length-read_bytes w'.mem.bytes p (page_size w'))
      ],
    )
  ]
