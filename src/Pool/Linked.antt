-- ===== src/Pool/Linked.antt =====
-- The lists of src/pool.rs and the pages that they own, without the counters: what holds in the middle
-- of an operation too.
use mathlib.Core.List.{Mem, Perm, mem-append_left, mem-cons_self}
use mathlib.Core.List
use mathlib.Core.List.Perm
use paged_alloc.Base.{
  ℕ, ◌≤◌, ◌≡◌, ◌≢◌, sym, ap, ◌∙◌, subst, some, List, [], ◌∷◌, ◌++◌, arith, word, ◌%◌,
}
use paged_alloc.Memory.{ptr_size, read_ptr}
use paged_alloc.Memory.Region.{SameOutside}
use paged_alloc.Alloc.{Block, Memory}
use paged_alloc.Alloc.Zeroed.{Allocated}
use paged_alloc.Source.{PageSource, Contract}
use paged_alloc.Pool.{PagePool}
use paged_alloc.Pool.Ownership.{
  Owns, Owns-perm, Owns-write, Owns-Allocated, IsSound-write, page, page-IsPlaced, used_first,
  queued_first,
}
use paged_alloc.Pool.Chain.{Chain}
use paged_alloc.Pool.Links.{Chain-spared}
use paged_alloc.Pool.Invariant.{IsPool}

pub record Linked {s : PageSource} (c : Contract s) (pool : PagePool) (m : Memory)
    (free queued used : List ℕ) (rest : List Block) : Type 0 where
  pub source : pool.shared.source ≡ s
  pub holds_pointer : ptr_size ≤ s.page_size
  pub owns : Owns c.layout m (free ++ (queued ++ used)) rest
  pub local : Chain m.bytes pool.local_head free
  pub queue : Chain m.bytes pool.shared.return_head queued

module _ {s : PageSource} (c : Contract s) (pool : PagePool) (m : Memory) {free queued : List ℕ}
    {rest : List Block} where
  pub linked :
      {used : List ℕ}
      → IsPool c pool m free queued used rest
      → Linked c pool m free queued used rest
  linked k = record {
    source = source;
    holds_pointer = holds_pointer;
    owns = owns;
    local = local;
    queue = queue;
  }
    where
      open k use {source, holds_pointer, owns, local, queue}

  pub Linked-perm :
      {used used' : List ℕ}
      → Perm used used'
      → Linked c pool m free queued used rest
      → Linked c pool m free queued used' rest
  Linked-perm e k = record {
    source = k.source;
    holds_pointer = k.holds_pointer;
    owns = Owns-perm (Perm.append_left free (Perm.append_left queued e)) k.owns;
    local = k.local;
    queue = k.queue;
  }

  -- A write within a page that is on neither list.
  pub Linked-write :
      {used : List ℕ} (n : Memory) (p : ℕ)
      → SameOutside p s.page_size m.bytes n.bytes
      → n.live ≡ m.live
      → Linked c pool m free queued (p ∷ used) rest
      → Linked c pool n free queued (p ∷ used) rest
  Linked-write {used} n p same live k = record {
    source = k.source;
    holds_pointer = k.holds_pointer;
    owns = Owns-write (IsSound-write live k.owns.sound) live k.owns;
    local =
        Chain-spared m.bytes p pool.local_head free fits owned (λ q h. mem-append_left _ h) outside
          k.local;
    queue =
        Chain-spared m.bytes p pool.shared.return_head queued fits owned
          (λ q h. List.mem-append_right free (mem-append_left used h)) outside k.queue;
  }
    where
      owned : Owns c.layout m (p ∷ (free ++ (queued ++ used))) rest
      owned = Owns-perm (used_first p free queued used) k.owns

      fits : ptr_size ≤ c.layout.size
      fits = omega (arith, c.size, k.holds_pointer)

      outside : SameOutside p c.layout.size m.bytes n.bytes
      outside q out = same q (omega (arith, c.size))

  -- The counters do not matter.
  pub Linked-same :
      {used : List ℕ} (pool' : PagePool)
      → pool'.shared.source ≡ pool.shared.source
      → pool'.local_head ≡ pool.local_head
      → pool'.shared.return_head ≡ pool.shared.return_head
      → Linked c pool m free queued used rest
      → Linked c pool' m free queued used rest
  Linked-same pool' src loc head k = record {
    source = src ∙ k.source;
    holds_pointer = k.holds_pointer;
    owns = k.owns;
    local = subst (λ h. Chain m.bytes h free) (sym loc) k.local;
    queue = subst (λ h. Chain m.bytes h queued) (sym head) k.queue;
  }

  -- A page in use is no null pointer, and its address is a word.
  pub used-IsPlaced :
      {used : List ℕ} (p : ℕ) → Linked c pool m free queued (p ∷ used) rest → (p ≢ 0) × (p ≤ word)
  used-IsPlaced {used} p k =
      let placed =
        page-IsPlaced p (Owns-perm (used_first p free queued used) k.owns) mem-cons_self in
      (omega (arith, placed.not_null), omega (arith, placed.in_space))

  -- A page whose next pointer is the head of the queue becomes the head.
  pub Linked-push :
      {used : List ℕ} (pool' : PagePool) (p : ℕ)
      → pool'.shared.source ≡ pool.shared.source
      → pool'.local_head ≡ pool.local_head
      → pool'.shared.return_head ≡ p
      → read_ptr m.bytes p ≡ pool.shared.return_head
      → Linked c pool m free queued (p ∷ used) rest
      → Linked c pool' m free (p ∷ queued) used rest
  Linked-push {used} pool' p src loc head next k = record {
    source = src ∙ k.source;
    holds_pointer = k.holds_pointer;
    owns =
        Owns-perm (queued_first p free queued used)
          (Owns-perm (used_first p free queued used) k.owns);
    local = subst (λ h. Chain m.bytes h free) (sym loc) k.local;
    queue = (head, (used-IsPlaced p k).0, subst (λ h. Chain m.bytes h queued) (sym next) k.queue);
  }

  -- The first page of the local list leaves it.
  pub Linked-pop :
      {used free' : List ℕ} (pool' : PagePool) (p : ℕ)
      → free ≡ p ∷ free'
      → pool'.shared.source ≡ pool.shared.source
      → pool'.local_head ≡ read_ptr m.bytes pool.local_head
      → pool'.shared.return_head ≡ pool.shared.return_head
      → Linked c pool m free queued used rest
      → Linked c pool' m free' queued (p ∷ used) rest
  Linked-pop {used} {free'} pool' p is src loc head k =
      let (at, ne, tail) = subst (λ ps. Chain m.bytes pool.local_head ps) is k.local in
      record {
        source = src ∙ k.source;
        holds_pointer = k.holds_pointer;
        owns =
            Owns-perm (Perm.symm (used_first p free' queued used))
              (subst (λ ps. Owns c.layout m (ps ++ (queued ++ used)) rest) is k.owns);
        local = subst (λ h. Chain m.bytes h free') (sym (loc ∙ ap (read_ptr m.bytes) at)) tail;
        queue = subst (λ h. Chain m.bytes h queued) (sym head) k.queue;
      }

  -- The queue becomes the local list.
  pub Linked-swap :
      {used : List ℕ} (pool' : PagePool)
      → pool'.shared.source ≡ pool.shared.source
      → pool'.local_head ≡ pool.shared.return_head
      → pool'.shared.return_head ≡ 0
      → free ≡ []
      → Linked c pool m free queued used rest
      → Linked c pool' m queued [] used rest
  Linked-swap {used} pool' src loc head none_free k = record {
    source = src ∙ k.source;
    holds_pointer = k.holds_pointer;
    owns = subst (λ ps. Owns c.layout m (ps ++ (queued ++ used)) rest) none_free k.owns;
    local = subst (λ h. Chain m.bytes h queued) (sym loc) k.queue;
    queue = head;
  }

  -- A page that the source has just allocated is in use.
  pub Linked-fresh :
      {used : List ℕ} (pool' : PagePool) (n : Memory) (p : ℕ)
      → pool'.shared.source ≡ pool.shared.source
      → pool'.local_head ≡ pool.local_head
      → pool'.shared.return_head ≡ pool.shared.return_head
      → pool.shared.source.allocate m ≡ some (p, n)
      → Linked c pool m free queued used rest
      → Linked c pool' n free queued (p ∷ used) rest
  Linked-fresh {used} pool' n p src loc head took k = record {
    source = src ∙ k.source;
    holds_pointer = k.holds_pointer;
    owns = Owns-perm (Perm.symm (used_first p free queued used)) owned;
    local =
        subst (λ h. Chain n.bytes h free) (sym loc)
          (Chain-spared m.bytes p pool.local_head free fits owned (λ q h. mem-append_left _ h)
            new.1.same k.local);
    queue =
        subst (λ h. Chain n.bytes h queued) (sym head)
          (Chain-spared m.bytes p pool.shared.return_head queued fits owned
            (λ q h. List.mem-append_right free (mem-append_left used h)) new.1.same k.queue);
  }
    where
      new : (p % ptr_size ≡ 0) × Allocated (page c.layout p) m n
      new =
          c.allocates m n p k.owns.sound
            (subst (λ src. PageSource.allocate src m ≡ some (p, n)) k.source took)

      owned : Owns c.layout n (p ∷ (free ++ (queued ++ used))) rest
      owned = Owns-Allocated p new.0 new.1 k.owns

      fits : ptr_size ≤ c.layout.size
      fits = omega (arith, c.size, k.holds_pointer)
