-- ===== src/Queue/Invariant.antt =====
-- The invariant of the pool with other threads at work (src/pool.rs).
use mathlib.Core.List.{Perm}
use mathlib.Core.List.Perm
use paged_alloc.Base.{ℕ, ◌+◌, ◌%◌, ◌<◌, ◌≡◌, List, [], ◌∷◌, ◌++◌, length, length-perm, word, arith}
use paged_alloc.Alloc.{Block}
use paged_alloc.Source.{PageSource, Contract}
use paged_alloc.Pool.Linked.{Linked, Linked-perm}
use paged_alloc.Queue.{Push, Owner, System}
use paged_alloc.Queue.Pushes.{
  pushing, pushing-middle, owned_by, used_of, owes_use, owes_free, total, total-middle, Ready,
  Ready-out, Ready-in, Ready-cons,
}
use paged_alloc.Queue.Bag.{bag, same_bag, Move}

-- Every page is on the local list, on the return queue, or owned by one call, the owner or a client.
-- The counters count once what the calls under way still owe is added.
pub record IsSystem {s : PageSource} (c : Contract s) (w : System) (free queued : List ℕ)
    (rest : List Block) : Type 0 where
  pub linked : Linked c w.pool w.mem free queued (used_of w.owner w.pushes w.held) rest
  pub page_size : w.pool.shared.page_size ≡ s.page_size
  pub ready : Ready w.mem.bytes w.pushes
  pub bounded : w.pool.shared.stats.free_pages < word
  pub free_pages :
      (w.pool.shared.stats.free_pages + total owes_free w.pushes) % word
      ≡ (length free + length queued) % word
  pub pages_in_use :
      w.pool.shared.stats.pages_in_use
      ≡ (length (pushing w.pushes) + length w.held + total owes_use w.pushes) % word
  pub allocations :
      w.pool.shared.stats.allocations_from_heap
      ≡ (length free + length queued + length (used_of w.owner w.pushes w.held)) % word

-- What a step from `w`, with these lists, leads to.
pub record Outcome {s : PageSource} (c : Contract s) (w : System) (free queued : List ℕ)
    (rest : List Block) (v : System) : Type 0 where
  pub free' : List ℕ
  pub queued' : List ℕ
  pub is : IsSystem c v free' queued' rest
  pub move :
      Move
        (bag (free ++ queued))
        (bag (used_of w.owner w.pushes w.held))
        (bag (free' ++ queued'))
        (bag (used_of v.owner v.pushes v.held))

pub used_of-perm :
    (owner : Owner) (fs gs : List Push) {held held' : List ℕ}
    → Perm (pushing fs) (pushing gs)
    → Perm held held'
    → Perm (used_of owner fs held) (used_of owner gs held')
used_of-perm owner fs gs e h = Perm.append_left (owned_by owner) (Perm.append e h)

abbrev pub with_calls : System → List Push → System
with_calls w ps = record w { pushes = ps }

-- The order of the calls does not matter: the one that goes on may stand first.
module _ (w : System) (fs gs : List Push) (f : Push) where
  pub middle_used :
      Perm (used_of w.owner (fs ++ (f ∷ gs)) w.held) (used_of w.owner (f ∷ (fs ++ gs)) w.held)
  middle_used =
      used_of-perm w.owner (fs ++ (f ∷ gs)) (f ∷ (fs ++ gs)) (pushing-middle fs gs f)
        (Perm.refl w.held)

  -- What the calls own is the same bag.
  pub middle_bag :
      bag (used_of w.owner (fs ++ (f ∷ gs)) w.held) ≡ bag (used_of w.owner (f ∷ (fs ++ gs)) w.held)
  middle_bag = same_bag middle_used

module _ {s : PageSource} (c : Contract s) (w : System) {free queued : List ℕ} {rest : List Block}
    (fs gs : List Push) (f : Push) where
  pub to_front :
      IsSystem c (with_calls w (fs ++ (f ∷ gs))) free queued rest
      → IsSystem c (with_calls w (f ∷ (fs ++ gs))) free queued rest
  to_front k = record {
    linked = Linked-perm c w.pool w.mem (middle_used w fs gs f) k.linked;
    page_size = k.page_size;
    ready =
        let (is, others) = Ready-out w.mem.bytes fs gs f k.ready in
        Ready-cons w.mem.bytes f (fs ++ gs) is others;
    bounded = k.bounded;
    free_pages = omega (arith, k.free_pages, total-middle owes_free fs gs f);
    pages_in_use = omega (
      arith,
      k.pages_in_use,
      total-middle owes_use fs gs f,
      length-perm (pushing-middle fs gs f),
    );
    allocations = omega (arith, k.allocations, length-perm (middle_used w fs gs f));
  }

  pub from_front :
      IsSystem c (with_calls w (f ∷ (fs ++ gs))) free queued rest
      → IsSystem c (with_calls w (fs ++ (f ∷ gs))) free queued rest
  from_front k = record {
    linked = Linked-perm c w.pool w.mem (Perm.symm (middle_used w fs gs f)) k.linked;
    page_size = k.page_size;
    ready =
        let (is, others) = Ready-out w.mem.bytes [] (fs ++ gs) f k.ready in
        Ready-in w.mem.bytes fs gs f is others;
    bounded = k.bounded;
    free_pages = omega (arith, k.free_pages, total-middle owes_free fs gs f);
    pages_in_use = omega (
      arith,
      k.pages_in_use,
      total-middle owes_use fs gs f,
      length-perm (pushing-middle fs gs f),
    );
    allocations = omega (arith, k.allocations, length-perm (middle_used w fs gs f));
  }
