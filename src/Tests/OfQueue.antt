-- ===== src/Tests/OfQueue.antt =====
-- The theorems on src/pool.rs with other threads at work, at concrete inputs: one page of 64 bytes is
-- in use, at address 8.
use mathlib.Core.List.{Nodup}
use paged_alloc.Base.{ℕ, ◌≡◌, ◌≤◌, refl, some, List, [], ◌∷◌, ◌++◌}
use paged_alloc.Alloc.{Memory, block, zero_fill, alloc_zeroed}
use paged_alloc.Alloc.Bump.{bump, top}
use paged_alloc.Source.Heap
use paged_alloc.Source.Heap.{as_source}
use paged_alloc.Pool.{PagePool, link, charged, counted, push_return}
use paged_alloc.Pool.Return.{with_shared}
use paged_alloc.Pool.Invariant.{IsPool}
use paged_alloc.Queue.{
  counting, load, linking, swapping, uncounting, asking, System, Steps, here, later, at_rest,
  give_back, push_on, owner_on, hand_out, read_head, write_next, exchange, uncount, count_free,
  drain_empty, fresh, with_head, uncounted, freed,
}
use paged_alloc.Queue.Bag.{bag, Moves}
use paged_alloc.Queue.Invariant.{Outcome}
use paged_alloc.Queue.Runs.{Step-Outcome}
use paged_alloc.Queue.Quiet.{Reached, Steps-Reached, rest-IsSystem, Steps-IsPool, Steps-Nodup}
use paged_alloc.Queue.Alone.{push_return-Steps, allocate_raw_page-Steps}
use paged_alloc.Queue.Progress.{Undisturbed, length_of, spurious, CanReturn, finishes_alone}
use paged_alloc.Base.{◌*◌, ◌+◌}
use paged_alloc.Tests.Data.{
  heap, source, contract, one_used, one_block, one_used-IsPool, new, no_memory, one_taken,
}

-- The page is on its way back, its next pointer is written, and the owner has found both lists empty.
abbrev halfway : System
halfway = record {
  pool = one_used;
  mem = link one_block 8 0;
  owner = asking;
  pushes = record { page = 8; phase = swapping 0 } ∷ [];
  held = [];
}

to_halfway : Steps (at_rest one_used one_block (8 ∷ [])) halfway
to_halfway =
    later
      (later (later (later here (give_back [] [] 8 refl)) (push_on [] [] 8 load refl read_head))
        (push_on [] [] 8 (linking 0) refl write_next))
      (owner_on (drain_empty refl refl))

-- The owner gets a second page while the first reaches the queue.
abbrev two_blocks : Memory
two_blocks = record {
  bytes = zero_fill (link one_block 8 0).bytes 80 64;
  live = block 80 heap.layout ∷ block 8 heap.layout ∷ [];
}

abbrev end_pool : PagePool
end_pool = freed (counted (uncounted (charged (with_head one_used 8))))

second : source.allocate (link one_block 8 0) ≡ some (80, two_blocks)
unfolding as_source Heap.allocate alloc_zeroed bump top
second = refl

to_rest : Steps (at_rest one_used one_block (8 ∷ [])) (at_rest end_pool two_blocks (80 ∷ []))
to_rest =
    later
      (later
        (later
          (later (later to_halfway (push_on [] [] 8 (swapping 0) refl (exchange refl)))
            (owner_on (fresh second)))
          (push_on [] [] 8 uncounting refl uncount))
        (hand_out 80 refl))
      (push_on [] [] 8 counting refl count_free)

Steps-IsPool_example :
    (free : List ℕ) × (queued : List ℕ) × IsPool contract end_pool two_blocks free queued
      (80 ∷ [])
      []
    × Moves (bag []) (bag (8 ∷ [])) (bag (free ++ queued)) (bag (80 ∷ []))
Steps-IsPool_example =
    Steps-IsPool contract [] [] [] one_used end_pool one_block two_blocks (8 ∷ []) (80 ∷ [])
      one_used-IsPool to_rest

abbrev reached : Reached contract (at_rest one_used one_block (8 ∷ [])) [] [] [] halfway
reached =
    Steps-Reached contract [] [] [] (at_rest one_used one_block (8 ∷ [])) halfway to_halfway
      (rest-IsSystem contract [] [] [] one_used one_block (8 ∷ []) one_used-IsPool)

-- The exchange that puts the page on the queue.
abbrev queued_system : System
queued_system = record halfway {
  pool = with_head one_used 8;
  pushes = record { page = 8; phase = uncounting } ∷ [];
}

Step-Outcome_example : Outcome contract halfway reached.free' reached.queued' [] queued_system
Step-Outcome_example =
    Step-Outcome contract reached.free' reached.queued' [] halfway queued_system
      (push_on [] [] 8 (swapping 0) refl (exchange refl)) reached.is

Steps-Nodup_example : Nodup {A = ℕ} (8 ∷ [])
Steps-Nodup_example =
    Steps-Nodup contract [] [] [] one_used one_block (8 ∷ []) halfway one_used-IsPool to_halfway

-- The page is on its way back, while the owner and another call are in the middle of their work.
abbrev returning : System
returning = record {
  pool = one_used;
  mem = one_block;
  owner = asking;
  pushes = record { page = 80; phase = counting } ∷ record { page = 8; phase = load } ∷ [];
  held = [];
}

push_return-Steps_example :
    let (shared, n) = push_return one_used.shared one_block 8 in
    Steps returning (record returning {
      pool = with_shared one_used shared;
      mem = n;
      pushes = record { page = 80; phase = counting } ∷ [];
    })
push_return-Steps_example =
    push_return-Steps returning (record { page = 80; phase = counting } ∷ []) [] 8 refl

allocate_raw_page-Steps_example :
    Steps (at_rest new no_memory []) (at_rest one_used one_block (8 ∷ []))
allocate_raw_page-Steps_example =
    allocate_raw_page-Steps (at_rest new no_memory []) 8 one_used one_block refl one_taken

-- The head that the call has read is stale.
finishes_alone_example :
    ((r : Undisturbed 80 (with_head one_used 8) one_block (linking 0))
      → length_of r ≤ 7 + 3 * spurious r)
    × CanReturn 80 (with_head one_used 8) one_block (linking 0)
finishes_alone_example = finishes_alone 80 (with_head one_used 8) one_block (linking 0)
