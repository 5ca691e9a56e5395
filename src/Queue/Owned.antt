-- ===== src/Queue/Owned.antt =====
-- The accesses of the owner in `allocate_raw_page` (src/pool.rs), with calls of `push_return` under
-- way, and the invariant.
use mathlib.Core.List.{Mem, Perm, append-nil}
use mathlib.Core.List.Perm
use mathlib.Core.List
use paged_alloc.Base.{
  ℕ, ◌≡◌, ◌≢◌, refl, sym, ap, ◌∙◌, subst, some, List, [], ◌∷◌, ◌++◌, length, arith,
}
use paged_alloc.Alloc.{Block, Memory}
use paged_alloc.Alloc.Zeroed.{Allocated}
use paged_alloc.Source.{PageSource, Contract}
use paged_alloc.Pool.{PagePool, popped, swap_queue, charged}
use paged_alloc.Pool.Chain.{Chain}
use paged_alloc.Pool.Ownership.{Owns-perm, used_first, page}
use paged_alloc.Pool.Linked.{Linked, Linked-pop, Linked-swap, Linked-fresh}
use paged_alloc.Queue.{
  Owner, idle, asking, found, System, OwnerAccess, pop, drain, drain_empty, fresh,
}
use paged_alloc.Queue.Pushes.{pushing, used_of, Ready-spared}
use paged_alloc.Queue.Bag.{bag, put, put-bag, Move, stay, take, grow}
use paged_alloc.Queue.Invariant.{IsSystem, Outcome}

abbrev pub with_owner : System → Owner → System
with_owner w owner = record w { owner = owner }

-- A list from a pointer that is not null is not empty.
Chain-first :
    (m : ℕ → ℕ) {head : ℕ} (ps : List ℕ)
    → head ≢ 0
    → Chain m head ps
    → (qs : List ℕ) × (ps ≡ head ∷ qs)
Chain-first m [] ne c = absurd (ne c)
Chain-first m (p ∷ ps) ne (at, _, _) = (ps, ap (λ q. q ∷ ps) (sym at))

Chain-null : (m : ℕ → ℕ) {head : ℕ} (ps : List ℕ) → head ≡ 0 → Chain m head ps → ps ≡ []
Chain-null m [] null c = refl
Chain-null m (p ∷ ps) null (at, ne, _) = absurd (ne (sym at ∙ null))

module _ {s : PageSource} (c : Contract s) (w : System) (free queued : List ℕ)
    (rest : List Block) where
  popped-Outcome :
      (qs : List ℕ)
      → free ≡ w.pool.local_head ∷ qs
      → IsSystem c (with_owner w idle) free queued rest
      → Outcome c
          (with_owner w idle)
          free
          queued
          rest
          (record w { pool = popped w.pool w.mem; owner = found w.pool.local_head })
  unfolding put
  popped-Outcome qs e k = record {
    free' = qs;
    queued' = queued;
    is = record {
      linked =
          Linked-pop c w.pool w.mem (popped w.pool w.mem) w.pool.local_head e refl refl refl
            k.linked;
      page_size = k.page_size;
      ready = k.ready;
      bounded = omega arith;
      free_pages = omega (arith, k.free_pages, ap length e);
      pages_in_use = k.pages_in_use;
      allocations = omega (arith, k.allocations, ap length e);
    };
    move =
        take w.pool.local_head
          (ap (λ ps. bag (ps ++ queued)) e ∙ sym (put-bag w.pool.local_head (qs ++ queued)));
  }

  drained-Outcome :
      free ≡ []
      → IsSystem c (with_owner w idle) free queued rest
      → Outcome c
          (with_owner w idle)
          free
          queued
          rest
          (record w { pool = swap_queue w.pool; owner = idle })
  drained-Outcome e k = record {
    free' = queued;
    queued' = [];
    is = record {
      linked = Linked-swap c w.pool w.mem (swap_queue w.pool) refl refl refl e k.linked;
      page_size = k.page_size;
      ready = k.ready;
      bounded = k.bounded;
      free_pages = omega (arith, k.free_pages, ap length e);
      pages_in_use = k.pages_in_use;
      allocations = omega (arith, k.allocations, ap length e);
    };
    move =
        subst
          (λ ps.
            Move (bag (free ++ queued)) (bag (used_of idle w.pushes w.held)) (bag ps)
              (bag (used_of idle w.pushes w.held)))
          (ap (λ ps. ps ++ queued) e ∙ sym (append-nil queued)) stay;
  }

  fresh-Outcome :
      (p : ℕ) (n : Memory)
      → w.pool.shared.source.allocate w.mem ≡ some (p, n)
      → IsSystem c (with_owner w asking) free queued rest
      → Outcome c
          (with_owner w asking)
          free
          queued
          rest
          (record w { pool = charged w.pool; mem = n; owner = found p })
  fresh-Outcome p n took k = record {
    free' = free;
    queued' = queued;
    is = record {
      linked = linked;
      page_size = k.page_size;
      ready =
          Ready-spared w.mem.bytes n.bytes p w.pushes
            (omega (arith, c.size, k.linked.holds_pointer))
            (Owns-perm (used_first p free queued (pushing w.pushes ++ w.held)) linked.owns)
            (λ q h.
              List.mem-append_right free
                (List.mem-append_right queued (List.mem-append_left w.held h)))
            new.same k.ready;
      bounded = k.bounded;
      free_pages = k.free_pages;
      pages_in_use = k.pages_in_use;
      allocations = omega (arith, k.allocations);
    };
    move =
        subst
          (λ b.
            Move (bag (free ++ queued)) (bag (used_of asking w.pushes w.held))
              (bag (free ++ queued)) b)
          (put-bag p (pushing w.pushes ++ w.held)) (grow p);
  }
    where
      linked : Linked c (charged w.pool) n free queued (p ∷ (pushing w.pushes ++ w.held)) rest
      linked = Linked-fresh c w.pool w.mem (charged w.pool) n p refl refl refl took k.linked

      new : Allocated (page c.layout p) w.mem n
      new =
          (c.allocates w.mem n p k.linked.owns.sound
            (subst (λ src. PageSource.allocate src w.mem ≡ some (p, n)) k.linked.source took)).1

  pub owner_on-Outcome :
      (owner : Owner) {pool : PagePool} {m : Memory} {owner' : Owner}
      → OwnerAccess w.pool w.mem owner pool m owner'
      → IsSystem c (with_owner w owner) free queued rest
      → Outcome c
          (with_owner w owner)
          free
          queued
          rest
          (record w { pool = pool; mem = m; owner = owner' })
  owner_on-Outcome idle (pop ne) k =
      let (qs, e) = Chain-first w.mem.bytes free ne k.linked.local in popped-Outcome qs e k
  owner_on-Outcome idle (drain null ne) k =
      drained-Outcome (Chain-null w.mem.bytes free null k.linked.local) k
  owner_on-Outcome idle (drain_empty null none) k = record {
    free' = free;
    queued' = queued;
    is = record {
      linked = k.linked;
      page_size = k.page_size;
      ready = k.ready;
      bounded = k.bounded;
      free_pages = k.free_pages;
      pages_in_use = k.pages_in_use;
      allocations = k.allocations;
    };
    move = stay;
  }
  owner_on-Outcome asking (fresh {p} {n} took) k = fresh-Outcome p n took k
  owner_on-Outcome (found p) a k = elim a [ ]
