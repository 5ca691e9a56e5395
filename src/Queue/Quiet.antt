-- ===== src/Queue/Quiet.antt =====
-- Runs of src/pool.rs with other threads at work, seen from a point where nobody is in the middle of
-- a call.
use mathlib.Core.List.{
  Mem, Perm, perm_middle, mem-cons_self, Nodup, Nodup-cons, Nodup-append, Nodup-nil,
}
use mathlib.Core.List.Perm
use mathlib.Core.List
use paged_alloc.Base.{ℕ, ◌<◌, List, [], ◌∷◌, ◌++◌, arith, map}
use paged_alloc.Alloc.{Layout, Block, Memory}
use paged_alloc.Source.{PageSource, Contract}
use paged_alloc.Pool.{PagePool}
use paged_alloc.Pool.Invariant.{IsPool}
use paged_alloc.Pool.Ownership.{Owns, page, page-Apart}
use paged_alloc.Pool.Linked.{linked}
use paged_alloc.Queue.{System, Steps, here, later, at_rest}
use paged_alloc.Queue.Pushes.{used_of}
use paged_alloc.Queue.Bag.{bag, Moves, none, one}
use paged_alloc.Queue.Invariant.{IsSystem}
use paged_alloc.Queue.Runs.{Step-Outcome}

-- What a run from `w`, with these lists, leads to.
pub record Reached {s : PageSource} (c : Contract s) (w : System) (free queued : List ℕ)
    (rest : List Block) (v : System) : Type 0 where
  pub free' : List ℕ
  pub queued' : List ℕ
  pub is : IsSystem c v free' queued' rest
  pub moves :
      Moves
        (bag (free ++ queued))
        (bag (used_of w.owner w.pushes w.held))
        (bag (free' ++ queued'))
        (bag (used_of v.owner v.pushes v.held))

module _ {s : PageSource} (c : Contract s) (free queued : List ℕ) (rest : List Block) where
  pub Steps-Reached :
      (w v : System) → Steps w v → IsSystem c w free queued rest → Reached c w free queued rest v
  Steps-Reached w _ here k = record { free' = free; queued' = queued; is = k; moves = none }
  Steps-Reached w v (later {u} r t) k =
      let before = Steps-Reached w u r k in
      let last = Step-Outcome c before.free' before.queued' rest u v t before.is in
      record {
        free' = last.free';
        queued' = last.queued';
        is = last.is;
        moves = one before.moves last.move;
      }

  -- With nobody in the middle of a call this is the invariant of the pool by itself.
  pub rest-IsSystem :
      (pool : PagePool) (m : Memory) (held : List ℕ)
      → IsPool c pool m free queued held rest
      → IsSystem c (at_rest pool m held) free queued rest
  rest-IsSystem pool m held k = record {
    linked = linked c pool m k;
    page_size = k.page_size;
    ready = λ f h. absurd (List.not-mem-nil h);
    bounded = omega (arith, k.free_pages);
    free_pages = omega (arith, k.free_pages);
    pages_in_use = omega (arith, k.pages_in_use);
    allocations = k.allocations;
  }

  rest-IsPool :
      (pool : PagePool) (m : Memory) (held : List ℕ)
      → IsSystem c (at_rest pool m held) free queued rest
      → IsPool c pool m free queued held rest
  rest-IsPool pool m held k = record {
    source = k.linked.source;
    page_size = k.page_size;
    holds_pointer = k.linked.holds_pointer;
    owns = k.linked.owns;
    local = k.linked.local;
    queue = k.linked.queue;
    free_pages = omega (arith, k.free_pages, k.bounded);
    pages_in_use = omega (arith, k.pages_in_use);
    allocations = k.allocations;
  }

module _ {s : PageSource} (c : Contract s) (free queued : List ℕ) (rest : List Block) where
  -- Whatever the order in which calls of `push_return` on other threads, failed exchanges included,
  -- interleave their accesses with the owner's and with writes to pages in use: if nobody is in the
  -- middle of a call before and after, the invariant of the pool holds again, counters included,
  -- and all that happened to the bag of free pages and the bag of pages in use is that single pages
  -- moved between them or came new from the source.
  pub Steps-IsPool :
      (pool pool' : PagePool) (m n : Memory) (held held' : List ℕ)
      → IsPool c pool m free queued held rest
      → Steps (at_rest pool m held) (at_rest pool' n held')
      → (free' : List ℕ) × (queued' : List ℕ) × IsPool c pool' n free' queued' held' rest
        × Moves (bag (free ++ queued)) (bag held) (bag (free' ++ queued')) (bag held')
  Steps-IsPool pool pool' m n held held' k r =
      let end =
        Steps-Reached c free queued rest (at_rest pool m held) (at_rest pool' n held') r
          (rest-IsSystem c free queued rest pool m held k) in
      (
        end.free',
        end.queued',
        rest-IsPool c end.free' end.queued' rest pool' n held' end.is,
        end.moves,
      )

Owns-shift :
    {l : Layout} {m : Memory} {ps : List ℕ} {rest : List Block} (p : ℕ)
    → Owns l m (p ∷ ps) rest
    → Owns l m ps (page l p ∷ rest)
Owns-shift {l} {m} {ps} {rest} p o = record {
  sound = o.sound;
  blocks = Perm.trans o.blocks (Perm.symm (perm_middle (map (page l) ps) rest));
  aligned = λ q h. o.aligned q (List.mem-cons_of_mem p h);
}

Owns-Nodup :
    {l : Layout} {m : Memory} (ps : List ℕ) {rest : List Block}
    → 0 < l.size
    → Owns l m ps rest
    → Nodup ps
Owns-Nodup [] size o = Nodup-nil
Owns-Nodup {l} (p ∷ ps) size o =
    Nodup-cons.1 (λ h. omega (arith, page-Apart p p o h), Owns-Nodup ps size (Owns-shift p o))

module _ {s : PageSource} (c : Contract s) (free queued : List ℕ) (rest : List Block) where
  -- At every point of such a run no page has two owners among the page that the owner is about to
  -- hand out, the calls of `push_return` before their exchange, and the pages in use: a head that
  -- came back to the value that a call had read does no harm.
  pub Steps-Nodup :
      (pool : PagePool) (m : Memory) (held : List ℕ) (v : System)
      → IsPool c pool m free queued held rest
      → Steps (at_rest pool m held) v
      → Nodup (used_of v.owner v.pushes v.held)
  Steps-Nodup pool m held v k r =
      let end =
        Steps-Reached c free queued rest (at_rest pool m held) v r
          (rest-IsSystem c free queued rest pool m held k) in
      let all =
        Owns-Nodup (end.free' ++ (end.queued' ++ used_of v.owner v.pushes v.held))
          (omega (arith, c.size, k.holds_pointer)) end.is.linked.owns in
      ((Nodup-append {l₁ = end.queued'}).0 ((Nodup-append {l₁ = end.free'}).0 all).1).1
