-- ===== src/Queue/Alone.antt =====
-- Calls of src/pool.rs that no other thread disturbs, as runs of single accesses.
use paged_alloc.Base.{ℕ, ◌≡◌, ◌≢◌, refl, sym, subst, List, [], ◌∷◌, ◌++◌, some, inl, inr, ==_cases}
use paged_alloc.Alloc.{Memory}
use paged_alloc.Pool.{
  PagePool, push_return, allocate_raw_page, counted, popped, swap_queue, charged,
}
use paged_alloc.Pool.Acquire.{
  pop_local-some, pop_local-none, raw_of_local, raw_of_queue, drain_some, drain_none, raw_of_source,
}
use paged_alloc.Pool.Return.{with_shared}
use paged_alloc.Queue.{
  idle, pop, drain, drain_empty, fresh, owner_on, hand_out, Phase, load, uncounting, Push, System,
  Access, read_head, write_next, exchange, uncount, count_free, uncounted, freed, push_on, Steps,
  here, later,
}

-- Accesses of one call only, until it has returned.
pub data Alone (p : ℕ) (pool' : PagePool) (m' : Memory) : PagePool → Memory → Phase → Type 0 where
  last :
      {pool : PagePool} {m : Memory} {phase : Phase}
      → Access pool m p phase pool' m' []
      → Alone p pool' m' pool m phase
  then_on :
      {pool pool'' : PagePool} {m m'' : Memory} {phase phase' : Phase}
      → Access pool m p phase pool'' m'' (record { page = p; phase = phase' } ∷ [])
      → Alone p pool' m' pool'' m'' phase'
      → Alone p pool' m' pool m phase

module _ (p : ℕ) (pool : PagePool) (m : Memory) where
  abbrev pub from_uncounting : Alone p (freed (uncounted pool)) m pool m uncounting
  from_uncounting = then_on uncount (last count_free)

  -- Undisturbed, the loop makes one pass, and does what `push_return` does.
  pub push_return-Alone :
      let (shared, n) = push_return pool.shared m p in
      Alone p (with_shared pool shared) n pool m load
  unfolding push_return
  push_return-Alone =
      then_on read_head
        (then_on write_next (then_on (exchange refl) (then_on uncount (last count_free))))

module _ (p : ℕ) (fs gs : List Push) (pool' : PagePool) (m' : Memory) where
  -- Whatever the owner, the other calls and the clients are in the middle of.
  Alone-Steps :
      (u w : System) (phase : Phase)
      → Steps u (record w { pushes = fs ++ (record { page = p; phase = phase } ∷ gs) })
      → Alone p pool' m' w.pool w.mem phase
      → Steps u (record w { pool = pool'; mem = m'; pushes = fs ++ gs })
  Alone-Steps u w phase before (last a) = later before (push_on fs gs p phase refl a)
  Alone-Steps u w phase before (then_on {pool'' = q} {m'' = n} {phase' = next} a r) =
      Alone-Steps u (record w { pool = q; mem = n }) next
        (later before (push_on fs gs p phase refl a)) r

-- The sequential `push_return` is a run of single accesses of that call, from any state of the
-- other calls and of the owner.
pub push_return-Steps :
    (w : System) (fs gs : List Push) (p : ℕ)
    → w.pushes ≡ fs ++ (record { page = p; phase = load } ∷ gs)
    → let (shared, n) = push_return w.pool.shared w.mem p in
      Steps w (record w { pool = with_shared w.pool shared; mem = n; pushes = fs ++ gs })
push_return-Steps w fs gs p e =
    let (shared, n) = push_return w.pool.shared w.mem p in
    Alone-Steps p fs gs (with_shared w.pool shared) n w w load
      (subst (λ ps. Steps w (record w { pushes = ps })) e here) (push_return-Alone p w.pool w.mem)

module _ (w : System) where
  abbrev asked : System
  asked = record w { owner = idle }

  abbrev got : ℕ × PagePool × Memory → System
  got t = record w { pool = t.1; mem = t.2; owner = idle; held = t.0 ∷ w.held }

  take_local :
      w.pool.local_head ≢ 0
      → Steps asked (got (w.pool.local_head, counted (popped w.pool w.mem), w.mem))
  take_local ne = later (later here (owner_on (pop ne))) (hand_out w.pool.local_head refl)

  take_queue :
      w.pool.local_head ≡ 0
      → w.pool.shared.return_head ≢ 0
      → Steps asked
          (got (w.pool.shared.return_head, counted (popped (swap_queue w.pool) w.mem), w.mem))
  take_queue null ne =
      later (later (later here (owner_on (drain null ne))) (owner_on (pop ne)))
        (hand_out w.pool.shared.return_head refl)

  take_fresh :
      (p : ℕ) (n : Memory)
      → w.pool.local_head ≡ 0
      → w.pool.shared.return_head ≡ 0
      → w.pool.shared.source.allocate w.mem ≡ some (p, n)
      → Steps asked (got (p, counted (charged w.pool), n))
  take_fresh p n null empty took =
      later (later (later here (owner_on (drain_empty null empty))) (owner_on (fresh took)))
        (hand_out p refl)

  taken_by :
      (t u : ℕ × PagePool × Memory)
      → allocate_raw_page w.pool w.mem ≡ some u
      → allocate_raw_page w.pool w.mem ≡ some t
      → Steps asked (got t)
      → Steps asked (got u)
  taken_by t u e f r = let same : t ≡ u = cc in subst (λ x. Steps asked (got x)) same r

  raw_run :
      (p : ℕ) (pool' : PagePool) (n : Memory)
      → allocate_raw_page w.pool w.mem ≡ some (p, pool', n)
      → Steps asked (got (p, pool', n))
  raw_run p pool' n e = elim (==_cases w.pool.local_head 0) [
    | inr (_, ne) ↦
        taken_by (w.pool.local_head, counted (popped w.pool w.mem), w.mem) (p, pool', n) e
          (raw_of_local w.pool w.mem w.pool.local_head _
            (pop_local-some w.pool w.mem w.pool.local_head refl ne))
          (take_local ne)
    | inl (_, null) ↦ elim (==_cases w.pool.shared.return_head 0) [
      | inr (_, ne) ↦
          taken_by (w.pool.shared.return_head, counted (popped (swap_queue w.pool) w.mem), w.mem)
            (p, pool', n) e
            (raw_of_queue w.pool w.mem w.pool.shared.return_head _
              (pop_local-none w.pool w.mem null)
              (drain_some w.pool w.mem w.pool.shared.return_head refl ne))
            (take_queue null ne)
      | inl (_, empty) ↦
          let (took, is) =
            raw_of_source w.pool w.mem p pool' n (pop_local-none w.pool w.mem null)
              (drain_none w.pool w.mem empty) e in
          subst (λ q. Steps asked (got (p, q, n))) (sym is) (take_fresh p n null empty took)
    ]
  ]

-- The sequential `allocate_raw_page` that returns a page is a run of single accesses of the owner,
-- from any state of the calls of `push_return` under way.
pub allocate_raw_page-Steps :
    (w : System) (p : ℕ) (pool' : PagePool) (n : Memory)
    → w.owner ≡ idle
    → allocate_raw_page w.pool w.mem ≡ some (p, pool', n)
    → Steps w (record w { pool = pool'; mem = n; held = p ∷ w.held })
allocate_raw_page-Steps w p pool' n e took =
    subst
      (λ o.
        Steps (record w { owner = o })
          (record w { pool = pool'; mem = n; owner = o; held = p ∷ w.held }))
      (sym e) (raw_run w p pool' n took)
