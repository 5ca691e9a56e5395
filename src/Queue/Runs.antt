-- ===== src/Queue/Runs.antt =====
-- Whole runs of the pool with other threads at work (src/pool.rs), from rest to rest.
use mathlib.Core.List.{Mem, Perm, perm_middle}
use mathlib.Core.List.Perm
use mathlib.Core.List
use paged_alloc.Base.{ℕ, ◌≡◌, refl, sym, subst, List, ◌∷◌, ◌++◌, length-perm, arith}
use paged_alloc.Memory.Region.{SameOutside}
use paged_alloc.Alloc.{Block, Memory}
use paged_alloc.Source.{PageSource, Contract}
use paged_alloc.Pool.{counted}
use paged_alloc.Pool.Ownership.{Owns-perm, used_first}
use paged_alloc.Pool.Linked.{Linked-perm, Linked-write, Linked-same}
use paged_alloc.Queue.{
  load, Push, Owner, idle, found, System, Step, give_back, push_on, owner_on, hand_out, write,
}
use paged_alloc.Queue.Pushes.{pushing, owned_by, used_of, Ready-cons, Ready-spared}
use paged_alloc.Queue.Bag.{bag, same_bag, Move, stay}
use paged_alloc.Queue.Invariant.{IsSystem, Outcome, with_calls}
use paged_alloc.Queue.Pushing.{push_on-Outcome}
use paged_alloc.Queue.Owned.{with_owner, owner_on-Outcome}

-- A page that is held, in front of what its holder and the others own.
held_first :
    (owner : Owner) (fs : List Push) (xs ys : List ℕ) (p : ℕ)
    → Perm (used_of owner fs (xs ++ (p ∷ ys))) (p ∷ used_of owner fs (xs ++ ys))
held_first owner fs xs ys p =
    Perm.trans
      (Perm.append_left (owned_by owner) (
        Perm.trans (Perm.append_left (pushing fs) (perm_middle xs ys))
          (perm_middle (pushing fs) (xs ++ ys))))
      (perm_middle (owned_by owner) (pushing fs ++ (xs ++ ys)))

abbrev with_held : System → List ℕ → System
with_held w held = record w { held = held }

module _ {s : PageSource} (c : Contract s) (w : System) (free queued : List ℕ)
    (rest : List Block) where
  given-Outcome :
      (xs ys : List ℕ) (p : ℕ)
      → IsSystem c (with_held w (xs ++ (p ∷ ys))) free queued rest
      → Outcome c
          (with_held w (xs ++ (p ∷ ys)))
          free
          queued
          rest
          (record w { held = xs ++ ys; pushes = record { page = p; phase = load } ∷ w.pushes })
  given-Outcome xs ys p k = record {
    free' = free;
    queued' = queued;
    is = record {
      linked = Linked-perm c w.pool w.mem moves k.linked;
      page_size = k.page_size;
      ready = Ready-cons w.mem.bytes (record { page = p; phase = load }) w.pushes tt k.ready;
      bounded = k.bounded;
      free_pages = omega (arith, k.free_pages);
      pages_in_use = omega (arith, k.pages_in_use, length-perm (perm_middle {a = p} xs ys));
      allocations = omega (arith, k.allocations, length-perm moves);
    };
    move =
        subst
          (λ b.
            Move (bag (free ++ queued)) (bag (used_of w.owner w.pushes (xs ++ (p ∷ ys))))
              (bag (free ++ queued)) b)
          (same_bag moves) stay;
  }
    where
      moves :
          Perm
            (used_of w.owner w.pushes (xs ++ (p ∷ ys)))
            (owned_by w.owner ++ ((p ∷ pushing w.pushes) ++ (xs ++ ys)))
      moves =
          Perm.trans (held_first w.owner w.pushes xs ys p)
            (Perm.symm (perm_middle (owned_by w.owner) (pushing w.pushes ++ (xs ++ ys))))

  handed-Outcome :
      (p : ℕ)
      → IsSystem c (with_owner w (found p)) free queued rest
      → Outcome c
          (with_owner w (found p))
          free
          queued
          rest
          (record w { pool = counted w.pool; owner = idle; held = p ∷ w.held })
  handed-Outcome p k = record {
    free' = free;
    queued' = queued;
    is = record {
      linked =
          Linked-same c w.pool w.mem (counted w.pool) refl refl refl
            (Linked-perm c w.pool w.mem moves k.linked);
      page_size = k.page_size;
      ready = k.ready;
      bounded = k.bounded;
      free_pages = k.free_pages;
      pages_in_use = omega (arith, k.pages_in_use);
      allocations = omega (arith, k.allocations, length-perm moves);
    };
    move =
        subst
          (λ b.
            Move (bag (free ++ queued)) (bag (p ∷ (pushing w.pushes ++ w.held)))
              (bag (free ++ queued)) b)
          (same_bag moves) stay;
  }
    where
      moves : Perm (p ∷ (pushing w.pushes ++ w.held)) (pushing w.pushes ++ (p ∷ w.held))
      moves = Perm.symm (perm_middle (pushing w.pushes) w.held)

  written-Outcome :
      (xs ys : List ℕ) (p : ℕ) (n : Memory)
      → SameOutside p w.pool.shared.page_size w.mem.bytes n.bytes
      → n.live ≡ w.mem.live
      → IsSystem c (with_held w (xs ++ (p ∷ ys))) free queued rest
      → Outcome c
          (with_held w (xs ++ (p ∷ ys)))
          free
          queued
          rest
          (record w { held = xs ++ (p ∷ ys); mem = n })
  written-Outcome xs ys p n same live k = record {
    free' = free;
    queued' = queued;
    is = record {
      linked = Linked-perm c w.pool n (Perm.symm first) (
          Linked-write c w.pool w.mem n p
            (subst (λ (t : ℕ). SameOutside p t w.mem.bytes n.bytes) k.page_size same) live
            (Linked-perm c w.pool w.mem first k.linked));
      page_size = k.page_size;
      ready =
          Ready-spared w.mem.bytes n.bytes p w.pushes
            (omega (arith, c.size, k.linked.holds_pointer))
            (Owns-perm (used_first p free queued (used_of w.owner w.pushes (xs ++ ys)))
              (Linked-perm c w.pool w.mem first k.linked).owns)
            (λ q h. List.mem-append_right free (
              List.mem-append_right queued
                (List.mem-append_right (owned_by w.owner) (List.mem-append_left (xs ++ ys) h))))
            (λ q out. same q (omega (arith, c.size, k.page_size))) k.ready;
      bounded = k.bounded;
      free_pages = k.free_pages;
      pages_in_use = k.pages_in_use;
      allocations = k.allocations;
    };
    move = stay;
  }
    where
      first :
          Perm (used_of w.owner w.pushes (xs ++ (p ∷ ys))) (p ∷ used_of w.owner w.pushes (xs ++ ys))
      first = held_first w.owner w.pushes xs ys p

module _ {s : PageSource} (c : Contract s) (free queued : List ℕ) (rest : List Block) where
  -- Each single access, from any state that satisfies the invariant with calls under way, keeps it,
  -- and either changes neither bag or moves one page between them or adds one to those in use.
  pub Step-Outcome :
      (w v : System) → Step w v → IsSystem c w free queued rest → Outcome c w free queued rest v
  Step-Outcome w _ (give_back xs ys p e) k =
      subst
        (λ held.
          Outcome c (with_held w held) free queued rest
            (record w { held = xs ++ ys; pushes = record { page = p; phase = load } ∷ w.pushes }))
        (sym e)
        (given-Outcome c w free queued rest xs ys p
          (subst (λ held. IsSystem c (with_held w held) free queued rest) e k))
  Step-Outcome w _ (push_on fs gs p phase {pool} {m} {next} e a) k =
      subst
        (λ ps.
          Outcome c (with_calls w ps) free queued rest
            (record w { pool = pool; mem = m; pushes = fs ++ (next ++ gs) }))
        (sym e)
        (push_on-Outcome c w p fs gs phase free queued rest a
          (subst (λ ps. IsSystem c (with_calls w ps) free queued rest) e k))
  Step-Outcome w _ (owner_on a) k = owner_on-Outcome c w free queued rest w.owner a k
  Step-Outcome w _ (hand_out p e) k =
      subst
        (λ o.
          Outcome c (with_owner w o) free queued rest
            (record w { pool = counted w.pool; owner = idle; held = p ∷ w.held }))
        (sym e)
        (handed-Outcome c w free queued rest p
          (subst (λ o. IsSystem c (with_owner w o) free queued rest) e k))
  Step-Outcome w _ (write xs ys p n e same live) k =
      subst
        (λ held. Outcome c (with_held w held) free queued rest (record w { held = held; mem = n }))
        (sym e)
        (written-Outcome c w free queued rest xs ys p n same live
          (subst (λ held. IsSystem c (with_held w held) free queued rest) e k))
