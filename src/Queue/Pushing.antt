-- ===== src/Queue/Pushing.antt =====
-- Any access of any call of `push_return` (src/pool.rs) under way, and the invariant.
use mathlib.Core.List.{perm_middle}
use paged_alloc.Base.{ℕ, ◌≤◌, ◌≡◌, refl, sym, ◌∙◌, subst, List, [], ◌∷◌, ◌++◌, length, arith}
use paged_alloc.Alloc.{Block, Memory}
use paged_alloc.Source.{PageSource, Contract}
use paged_alloc.Pool.{PagePool}
use paged_alloc.Queue.{
  Phase, load, linking, swapping, uncounting, counting, Push, System, Access, read_head, write_next,
  exchange, retry, uncount, count_free,
}
use paged_alloc.Queue.Pushes.{used_of}
use paged_alloc.Queue.Bag.{bag, same_bag, put-bag, Move, stay, give}
use paged_alloc.Queue.Invariant.{IsSystem, Outcome, with_calls, to_front, from_front, middle_bag}
use paged_alloc.Queue.Calls.{
  call, owner_first, head_small, next_phase, linked-IsSystem, exchanged-IsSystem,
  uncounted-IsSystem, freed-IsSystem,
}

module _ {s : PageSource} (c : Contract s) (w : System) (p : ℕ) (ps : List Push)
    (free queued : List ℕ) (rest : List Block) where
  -- One access of the first call.
  pub Access-Outcome :
      (phase : Phase) {pool : PagePool} {m : Memory} {next : List Push}
      → Access w.pool w.mem p phase pool m next
      → IsSystem c (with_calls w (call p phase ∷ ps)) free queued rest
      → Outcome c
          (with_calls w (call p phase ∷ ps))
          free
          queued
          rest
          (record w { pool = pool; mem = m; pushes = next ++ ps })
  Access-Outcome load read_head k = record {
    free' = free;
    queued' = queued;
    is =
        next_phase c w p ps load (linking w.pool.shared.return_head) refl refl refl
          (head_small c w p ps load k) k;
    move = stay;
  }
  Access-Outcome (linking head) write_next k = record {
    free' = free;
    queued' = queued;
    is = linked-IsSystem c w p ps head k;
    move = stay;
  }
  Access-Outcome (swapping head) (exchange same) k = record {
    free' = free;
    queued' = p ∷ queued;
    is = exchanged-IsSystem c w p ps head same k;
    move =
        subst
          (λ b.
            Move (bag (free ++ queued)) (bag (used_of w.owner (call p (swapping head) ∷ ps) w.held))
              b (bag (used_of w.owner ps w.held)))
          (put-bag p (free ++ queued) ∙ sym (same_bag (perm_middle free queued)))
          (give p (same_bag (owner_first w p ps) ∙ sym (put-bag p (used_of w.owner ps w.held))));
  }
  Access-Outcome (swapping head) retry k = record {
    free' = free;
    queued' = queued;
    is = next_phase c w p ps (swapping head) load refl refl refl tt k;
    move = stay;
  }
  Access-Outcome uncounting uncount k = record {
    free' = free;
    queued' = queued;
    is = uncounted-IsSystem c w p ps k;
    move = stay;
  }
  Access-Outcome counting count_free k = record {
    free' = free;
    queued' = queued;
    is = freed-IsSystem c w p ps k;
    move = stay;
  }

Access-short :
    (w : System) (p : ℕ) (phase : Phase) {pool : PagePool} {m : Memory} {next : List Push}
    → Access w.pool w.mem p phase pool m next
    → length next ≤ 1
Access-short w p load read_head = omega arith
Access-short w p (linking head) write_next = omega arith
Access-short w p (swapping head) (exchange same) = omega arith
Access-short w p (swapping head) retry = omega arith
Access-short w p uncounting uncount = omega arith
Access-short w p counting count_free = omega arith

-- The call that went on goes back to its place among the others.
put_back :
    {s : PageSource} (c : Contract s) (u : System) (fs gs next : List Push) {free queued : List ℕ}
    {rest : List Block}
    → length next ≤ 1
    → IsSystem c (with_calls u (next ++ (fs ++ gs))) free queued rest
    → IsSystem c (with_calls u (fs ++ (next ++ gs))) free queued rest
      × (bag (used_of u.owner (next ++ (fs ++ gs)) u.held)
          ≡ bag (used_of u.owner (fs ++ (next ++ gs)) u.held))
put_back c u fs gs [] short k = (k, refl)
put_back c u fs gs (f ∷ []) short k = (from_front c u fs gs f k, sym (middle_bag u fs gs f))
put_back c u fs gs (f ∷ g ∷ next) short k = absurd (omega arith)

-- One access of some call.
pub push_on-Outcome :
    {s : PageSource} (c : Contract s) (w : System) (p : ℕ) (fs gs : List Push) (phase : Phase)
    (free queued : List ℕ) (rest : List Block) {pool : PagePool} {m : Memory} {next : List Push}
    → Access w.pool w.mem p phase pool m next
    → IsSystem c (with_calls w (fs ++ (call p phase ∷ gs))) free queued rest
    → Outcome c
        (with_calls w (fs ++ (call p phase ∷ gs)))
        free
        queued
        rest
        (record w { pool = pool; mem = m; pushes = fs ++ (next ++ gs) })
push_on-Outcome c w p fs gs phase free queued rest {pool} {m} {next} a k =
    let done =
      Access-Outcome c w p (fs ++ gs) free queued rest phase a
        (to_front c w fs gs (call p phase) k) in
    let (back, same) =
      put_back c (record w { pool = pool; mem = m }) fs gs next (Access-short w p phase a)
        done.is in
    record {
      free' = done.free';
      queued' = done.queued';
      is = back;
      move =
          subst
            (λ b.
              Move (bag (free ++ queued)) b (bag (done.free' ++ done.queued'))
                (bag (used_of w.owner (fs ++ (next ++ gs)) w.held)))
            (sym (middle_bag w fs gs (call p phase)))
            (subst
              (λ b.
                Move (bag (free ++ queued))
                  (bag (used_of w.owner (call p phase ∷ (fs ++ gs)) w.held))
                  (bag (done.free' ++ done.queued')) b)
              same done.move);
    }
