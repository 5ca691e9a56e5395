-- ===== src/Queue/Calls.antt =====
-- The accesses of a call of `push_return` (src/pool.rs), and the invariant.
use mathlib.Core.List.{Mem, Perm, perm_middle}
use mathlib.Core.List.Perm
use mathlib.Core.List
use paged_alloc.Base.{
  ℕ, ◌+◌, ◌%◌, ◌<◌, ◌≡◌, refl, sym, ◌∙◌, subst, List, [], ◌∷◌, ◌++◌, length, length-perm, word,
  arith,
}
use paged_alloc.Memory.Pointer.{read-write_ptr}
use paged_alloc.Alloc.{Block}
use paged_alloc.Source.{PageSource, Contract}
use paged_alloc.Pool.{link}
use paged_alloc.Pool.Ownership.{Owns, Owns-perm, used_first, page-IsPlaced}
use paged_alloc.Pool.Links.{write_ptr_within}
use paged_alloc.Pool.Chain.{head_of}
use paged_alloc.Pool.Linked.{Linked-same, Linked, Linked-perm, Linked-write, Linked-push}
use paged_alloc.Queue.{
  Phase, linking, swapping, uncounting, counting, Push, System, with_head, uncounted, freed,
}
use paged_alloc.Queue.Pushes.{
  page_of, pushing, owned_by, owes_use, owes_free, total, IsReady, Ready, Ready-out, Ready-cons,
  Ready-spared,
}
use paged_alloc.Queue.Invariant.{IsSystem, with_calls}

-- The call for a page in a given phase.
abbrev pub call : ℕ → Phase → Push
call p phase = record { page = p; phase = phase }

pub owner_first :
    (w : System) (p : ℕ) (ps : List Push)
    → Perm
        (owned_by w.owner ++ ((p ∷ pushing ps) ++ w.held))
        (p ∷ (owned_by w.owner ++ (pushing ps ++ w.held)))
owner_first w p ps = perm_middle (owned_by w.owner) (pushing ps ++ w.held)

module _ {s : PageSource} (c : Contract s) (w : System) (p : ℕ) (ps : List Push)
    {free queued : List ℕ} {rest : List Block} where
  pub head_small :
      (phase : Phase)
      → IsSystem c (with_calls w (call p phase ∷ ps)) free queued rest
      → w.pool.shared.return_head < word
  head_small phase k =
      head_of w.mem.bytes w.pool.shared.return_head word queued (omega arith)
        (λ q h.
          let placed =
            page-IsPlaced q k.linked.owns (List.mem-append_right free (List.mem-append_left _ h)) in
          omega arith)
        k.linked.queue

  others-Ready :
      (phase : Phase)
      → IsSystem c (with_calls w (call p phase ∷ ps)) free queued rest
      → IsReady w.mem.bytes p phase × Ready w.mem.bytes ps
  others-Ready phase k = Ready-out w.mem.bytes [] ps (call p phase) k.ready

  -- A phase that owns the page and owes as much.
  pub next_phase :
      (before after : Phase)
      → page_of p before ≡ page_of p after
      → owes_use before ≡ owes_use after
      → owes_free before ≡ owes_free after
      → IsReady w.mem.bytes p after
      → IsSystem c (with_calls w (call p before ∷ ps)) free queued rest
      → IsSystem c (with_calls w (call p after ∷ ps)) free queued rest
  next_phase before after own use_ free_ is k = record {
    linked =
        subst
          (λ t.
            Linked c w.pool w.mem free queued (owned_by w.owner ++ ((t ++ pushing ps) ++ w.held))
              rest)
          own k.linked;
    page_size = k.page_size;
    ready = Ready-cons w.mem.bytes (call p after) ps is (others-Ready before k).1;
    bounded = k.bounded;
    free_pages = omega (arith, k.free_pages, free_);
    pages_in_use =
        subst
          (λ (t : List ℕ).
            w.pool.shared.stats.pages_in_use
            ≡ (length (t ++ pushing ps) + length w.held + total owes_use (call p after ∷ ps))
              % word)
          own (omega (arith, k.pages_in_use, use_));
    allocations =
        subst
          (λ (t : List ℕ).
            w.pool.shared.stats.allocations_from_heap
            ≡ (length free
                + length queued
                + length (owned_by w.owner ++ ((t ++ pushing ps) ++ w.held)))
              % word)
          own k.allocations;
  }

  -- The call writes the next pointer into its own page.
  pub linked-IsSystem :
      (head : ℕ)
      → IsSystem c (with_calls w (call p (linking head) ∷ ps)) free queued rest
      → IsSystem c
          (record w { mem = link w.mem p head; pushes = call p (swapping head) ∷ ps })
          free
          queued
          rest
  linked-IsSystem head k = record {
    linked = Linked-perm c w.pool (link w.mem p head) (Perm.symm (owner_first w p ps)) (
        Linked-write c w.pool w.mem (link w.mem p head) p
          (write_ptr_within w.mem.bytes p head (k.linked.holds_pointer)) refl
          (Linked-perm c w.pool w.mem (owner_first w p ps) k.linked));
    page_size = k.page_size;
    ready =
        Ready-cons (link w.mem p head).bytes (call p (swapping head)) ps
          (read-write_ptr w.mem.bytes p head (others-Ready (linking head) k).0)
          (Ready-spared w.mem.bytes (link w.mem p head).bytes p ps
            (omega (arith, c.size, k.linked.holds_pointer)) owned among
            (write_ptr_within w.mem.bytes p head (omega (arith, c.size, k.linked.holds_pointer)))
            (others-Ready (linking head) k).1);
    bounded = k.bounded;
    free_pages = k.free_pages;
    pages_in_use = k.pages_in_use;
    allocations = k.allocations;
  }
    where
      owned :
          Owns c.layout w.mem
            (p ∷ (free ++ (queued ++ (owned_by w.owner ++ (pushing ps ++ w.held)))))
            rest
      owned =
          Owns-perm (used_first p free queued _)
            (Linked-perm c w.pool w.mem (owner_first w p ps) k.linked).owns

      among :
          (q : ℕ)
          → Mem q (pushing ps)
          → Mem q (free ++ (queued ++ (owned_by w.owner ++ (pushing ps ++ w.held))))
      among q h = List.mem-append_right free (
          List.mem-append_right queued
            (List.mem-append_right (owned_by w.owner) (List.mem-append_left w.held h)))

  -- The exchange succeeds: whatever happened since the head was read, it is again what the page
  -- points to.
  pub exchanged-IsSystem :
      (head : ℕ)
      → w.pool.shared.return_head ≡ head
      → IsSystem c (with_calls w (call p (swapping head) ∷ ps)) free queued rest
      → IsSystem c
          (record w { pool = with_head w.pool p; pushes = call p uncounting ∷ ps })
          free
          (p ∷ queued)
          rest
  exchanged-IsSystem head same k = record {
    linked =
        Linked-push c w.pool w.mem (with_head w.pool p) p refl refl refl
          ((others-Ready (swapping head) k).0 ∙ sym same)
          (Linked-perm c w.pool w.mem (owner_first w p ps) k.linked);
    page_size = k.page_size;
    ready = Ready-cons w.mem.bytes (call p uncounting) ps tt (others-Ready (swapping head) k).1;
    bounded = k.bounded;
    free_pages = omega (arith, k.free_pages);
    pages_in_use = omega (arith, k.pages_in_use);
    allocations = omega (arith, k.allocations, length-perm (owner_first w p ps));
  }

  pub uncounted-IsSystem :
      IsSystem c (with_calls w (call p uncounting ∷ ps)) free queued rest
      → IsSystem c
          (record w { pool = uncounted w.pool; pushes = call p counting ∷ ps })
          free
          queued
          rest
  uncounted-IsSystem k = record {
    linked = Linked-same c w.pool w.mem (uncounted w.pool) refl refl refl k.linked;
    page_size = k.page_size;
    ready = Ready-cons w.mem.bytes (call p counting) ps tt (others-Ready uncounting k).1;
    bounded = k.bounded;
    free_pages = k.free_pages;
    pages_in_use = omega (arith, k.pages_in_use);
    allocations = k.allocations;
  }

  pub freed-IsSystem :
      IsSystem c (with_calls w (call p counting ∷ ps)) free queued rest
      → IsSystem c (record w { pool = freed w.pool; pushes = ps }) free queued rest
  freed-IsSystem k = record {
    linked = Linked-same c w.pool w.mem (freed w.pool) refl refl refl k.linked;
    page_size = k.page_size;
    ready = (others-Ready counting k).1;
    bounded = omega arith;
    free_pages = omega (arith, k.free_pages, k.bounded);
    pages_in_use = omega (arith, k.pages_in_use);
    allocations = k.allocations;
  }
