-- ===== src/Chunk/Ledger.antt =====
-- src/chunk.rs: the counters of `ChunkPoolStats` and of the tenants against the builders and chunks
-- that are alive.
use paged_alloc.Base.{
  ℕ, suc, ◌+◌, ◌%◌, ◌^◌, ◌<◌, ◌≡◌, ◌≢◌, ne→==, refl, ap, ◌∙◌, subst, inl, inr, some, List, [], ◌∷◌,
  ◌++◌, length, ◌==◌, if◌then◌else◌, ==_cases, word, arith,
}
use paged_alloc.Alloc.{Layout, Memory}
use paged_alloc.Tenant.{TenantStats, Tenants, record_chunk_allocate, record_chunk_release}
use paged_alloc.World.{returned}
use paged_alloc.Chunk.{State, ChunkPoolStats, refund, clone_option, drop_option}
use paged_alloc.Chunk.Builder.{
  ChunkBuilder, ChunkInner, Chunk, seal, drop_builder, drop_chunk, drop_inner,
}
use paged_alloc.Chunk.Allocate.{allocate_aligned}
use paged_alloc.Chunk.Lifetime.{sealed}
use paged_alloc.Chunk.Books.{
  SameBooks, SameBooks-trans, Charged, Billed, allocate_aligned-Billed, clone_option-SameBooks,
  drop_option-SameBooks,
}

-- What a builder, or a chunk with all its clones, has been charged for.
pub record Account : Type 0 where
  pub tenant : ℕ
  pub capacity : ℕ
  pub oversized : ℕ

abbrev pub sum_of : (Account → ℕ) → List Account → ℕ
sum_of f [] = 0
sum_of f (a ∷ open_) = f a + sum_of f open_

abbrev pub mine : ℕ → Account → ℕ
mine t a = if a.tenant == t then 1 else 0

abbrev pub bytes : ℕ → Account → ℕ
bytes t a = if a.tenant == t then a.capacity else 0

-- `before` is what the tenants were charged for elsewhere.
pub record Balanced (before : Tenants) (w : State) (accounts : List Account) : Type 0 where
  pub chunks : w.pool.stats.chunks_in_use ≡ length accounts % word
  pub oversized : w.pool.stats.oversized_bytes_in_use ≡ sum_of Account.oversized accounts % word
  pub tenant_chunks :
      (t : ℕ)
      → (w.tenants t).chunks_in_use ≡ ((before t).chunks_in_use + sum_of (mine t) accounts) % word
  pub tenant_bytes :
      (t : ℕ)
      → (w.tenants t).bytes_in_use ≡ ((before t).bytes_in_use + sum_of (bytes t) accounts) % word

sum_of-middle :
    (f : Account → ℕ) (a : Account) (xs ys : List Account)
    → sum_of f (xs ++ (a ∷ ys)) ≡ f a + sum_of f (xs ++ ys)
sum_of-middle f a [] ys = refl
sum_of-middle f a (x ∷ xs) ys = omega (arith, sum_of-middle f a xs ys)

length-middle :
    (a : Account) (xs ys : List Account) → length (xs ++ (a ∷ ys)) ≡ suc (length (xs ++ ys))
length-middle a [] ys = refl
length-middle a (x ∷ xs) ys = ap suc (length-middle a xs ys)

Balanced-same :
    (before : Tenants) (w v : State) (accounts : List Account)
    → SameBooks w v
    → Balanced before w accounts
    → Balanced before v accounts
Balanced-same before w v accounts same k = record {
  chunks = ap ChunkPoolStats.chunks_in_use same.stats ∙ k.chunks;
  oversized = ap ChunkPoolStats.oversized_bytes_in_use same.stats ∙ k.oversized;
  tenant_chunks = λ t.
      ap (λ (all : Tenants). TenantStats.chunks_in_use (all t)) same.tenants ∙ k.tenant_chunks t;
  tenant_bytes =
      λ t. ap (λ (all : Tenants). TenantStats.bytes_in_use (all t)) same.tenants ∙ k.tenant_bytes t;
}

Charged-Balanced :
    (before : Tenants) (w v : State) (t size oversized : ℕ) (accounts : List Account)
    → Charged w t size oversized v
    → Balanced before w accounts
    → Balanced before v (record { tenant = t; capacity = size; oversized = oversized } ∷ accounts)
unfolding record_chunk_allocate
Charged-Balanced before w v t size oversized accounts charged k = record {
  chunks = omega (arith, charged.chunks_in_use, k.chunks);
  oversized = ground (arith, charged.oversized_bytes, k.oversized);
  tenant_chunks = λ u.
      ap (λ (all : Tenants). TenantStats.chunks_in_use (all u)) charged.tenants
      ∙ ground (arith, k.tenant_chunks u);
  tenant_bytes = λ u.
      ap (λ (all : Tenants). TenantStats.bytes_in_use (all u)) charged.tenants
      ∙ ground (arith, k.tenant_bytes u);
}

refund-Balanced :
    (before : Tenants) (w : State) (t capacity oversized : ℕ) (xs ys : List Account)
    → Balanced before w
        (xs ++ (record { tenant = t; capacity = capacity; oversized = oversized } ∷ ys))
    → Balanced before (refund t capacity oversized w) (xs ++ ys)
unfolding refund record_chunk_release
refund-Balanced before w t capacity oversized xs ys k =
    let a : Account = record { tenant = t; capacity = capacity; oversized = oversized } in
    record {
      chunks = omega (arith, k.chunks, length-middle a xs ys);
      oversized = ground (arith, k.oversized, sum_of-middle Account.oversized a xs ys);
      tenant_chunks = λ u. ground (arith, k.tenant_chunks u, sum_of-middle (mine u) a xs ys);
      tenant_bytes = λ u. ground (arith, k.tenant_bytes u, sum_of-middle (bytes u) a xs ys);
    }

abbrev pub account_of : ℕ → ChunkBuilder → Account
account_of t b = record { tenant = t; capacity = b.capacity; oversized = b.oversized_bytes }

abbrev pub inner_account : ChunkInner → Account
inner_account i = record { tenant = i.tenant; capacity = i.capacity; oversized = i.oversized_bytes }

-- What the owner and the holders of builders and chunks can do: the accounts are those of the builders
-- and chunks that are alive.
pub data Op (place : Layout → Memory → ℕ) (w : State)
    : List Account → State → List Account → Type 0 where
  grant :
      {accounts : List Account} {v : State} (t size align : ℕ) (b : ChunkBuilder)
      → size < 2 ^ 32
      → allocate_aligned place t size align w ≡ returned b v
      → Op place w accounts v (account_of t b ∷ accounts)
  -- The account is from now on that of the chunk.
  seal_up :
      {v : State} (t : ℕ) (b : ChunkBuilder) (chunk : Chunk) (xs ys : List Account)
      → b.tenant ≡ some t
      → seal b w ≡ returned chunk v
      → Op place w (xs ++ (account_of t b ∷ ys)) v (xs ++ (inner_account chunk.inner ∷ ys))
  abandon :
      (t : ℕ) (b : ChunkBuilder) (xs ys : List Account)
      → b.tenant ≡ some t
      → Op place w (xs ++ (account_of t b ∷ ys)) (drop_builder b w) (xs ++ ys)
  drop_last :
      (chunk : Chunk) (xs ys : List Account)
      → chunk.ref_count ≡ 1
      → Op place w (xs ++ (inner_account chunk.inner ∷ ys)) ((drop_chunk chunk w).1) (xs ++ ys)
  drop_clone :
      {accounts : List Account} (chunk : Chunk)
      → chunk.ref_count ≢ 1
      → Op place w accounts ((drop_chunk chunk w).1) accounts
  -- Whatever touches no counter, such as an append.
  untouched : {accounts : List Account} {v : State} → SameBooks w v → Op place w accounts v accounts

pub data Ops (place : Layout → Memory → ℕ) (w : State) (accounts : List Account)
    : State → List Account → Type 0 where
  none_yet : Ops place w accounts w accounts
  and_op :
      {u v : State} {accounts' accounts'' : List Account}
      → Ops place w accounts u accounts'
      → Op place u accounts' v accounts''
      → Ops place w accounts v accounts''

module _ (place : Layout → Memory → ℕ) (before : Tenants) where
  granted-Balanced :
      (t size align : ℕ) (w v : State) (b : ChunkBuilder) (accounts : List Account)
      → size < 2 ^ 32
      → allocate_aligned place t size align w ≡ returned b v
      → Balanced before w accounts
      → Balanced before v (account_of t b ∷ accounts)
  granted-Balanced t size align w v b accounts small e k =
      let (_, capacity, charged) =
        subst (Billed w t size) e (allocate_aligned-Billed place t size align w) in
      subst
        (λ (n : ℕ).
          Balanced before v
            (record { tenant = t; capacity = n; oversized = b.oversized_bytes } ∷ accounts))
        (omega (arith, capacity))
        (Charged-Balanced before w v t size b.oversized_bytes accounts charged k)

  sealed-Balanced :
      (t : ℕ) (w v : State) (b : ChunkBuilder) (chunk : Chunk) (xs ys : List Account)
      → b.tenant ≡ some t
      → seal b w ≡ returned chunk v
      → Balanced before w (xs ++ (account_of t b ∷ ys))
      → Balanced before v (xs ++ (inner_account chunk.inner ∷ ys))
  unfolding seal drop_builder
  sealed-Balanced t w v b chunk xs ys has e k =
      let done = drop_option b.packed (clone_option b.packed w) in
      let is : seal b w ≡ returned (sealed b t) done = rw (has, seal) refl in
      let same : done ≡ v = cc in
      let made : sealed b t ≡ chunk = cc in
      let books : SameBooks w v = subst (SameBooks w) same (
        SameBooks-trans (clone_option-SameBooks b.packed w)
          (drop_option-SameBooks b.packed (clone_option b.packed w))) in
      subst (λ (x : Chunk). Balanced before v (xs ++ (inner_account x.inner ∷ ys))) made
        (Balanced-same before w v (xs ++ (account_of t b ∷ ys)) books k)

  abandoned-Balanced :
      (t : ℕ) (w : State) (b : ChunkBuilder) (xs ys : List Account)
      → b.tenant ≡ some t
      → Balanced before w (xs ++ (account_of t b ∷ ys))
      → Balanced before (drop_builder b w) (xs ++ ys)
  unfolding drop_builder
  abandoned-Balanced t w b xs ys has k =
      rw (has, drop_builder)
        (Balanced-same before (refund t b.capacity b.oversized_bytes w) _ (xs ++ ys)
          (drop_option-SameBooks b.packed (refund t b.capacity b.oversized_bytes w))
          (refund-Balanced before w t b.capacity b.oversized_bytes xs ys k))

  last-Balanced :
      (w : State) (chunk : Chunk) (xs ys : List Account)
      → chunk.ref_count ≡ 1
      → Balanced before w (xs ++ (inner_account chunk.inner ∷ ys))
      → Balanced before ((drop_chunk chunk w).1) (xs ++ ys)
  unfolding drop_chunk drop_inner
  last-Balanced w chunk xs ys last k =
      let i = chunk.inner in
      elim (==_cases chunk.ref_count 1) [
        | inl (hit, _) ↦ rw hit (
            Balanced-same before (refund i.tenant i.capacity i.oversized_bytes w) _ (xs ++ ys)
              (drop_option-SameBooks i.packed (refund i.tenant i.capacity i.oversized_bytes w))
              (refund-Balanced before w i.tenant i.capacity i.oversized_bytes xs ys k))
        | inr (_, ne) ↦ absurd (ne last)
      ]

  clone-Balanced :
      (w : State) (chunk : Chunk) (accounts : List Account)
      → chunk.ref_count ≢ 1
      → Balanced before w accounts
      → Balanced before ((drop_chunk chunk w).1) accounts
  unfolding drop_chunk
  clone-Balanced w chunk accounts more k = rw (ne→== chunk.ref_count 1 more) k

  pub Op-Balanced :
      (w v : State) (accounts accounts' : List Account)
      → Op place w accounts v accounts'
      → Balanced before w accounts
      → Balanced before v accounts'
  Op-Balanced w v accounts _ (grant t size align b small e) k =
      granted-Balanced t size align w v b accounts small e k
  Op-Balanced w v _ _ (seal_up t b chunk xs ys has e) k =
      sealed-Balanced t w v b chunk xs ys has e k
  Op-Balanced w _ _ _ (abandon t b xs ys has) k = abandoned-Balanced t w b xs ys has k
  Op-Balanced w _ _ _ (drop_last chunk xs ys last) k = last-Balanced w chunk xs ys last k
  Op-Balanced w _ accounts _ (drop_clone chunk more) k = clone-Balanced w chunk accounts more k
  Op-Balanced w v accounts _ (untouched same) k = Balanced-same before w v accounts same k

-- Over any history in which builders below 2^32 bytes are allocated, on whichever path, and are
-- abandoned or sealed into chunks with the same charges, and the chunks are cloned and dropped, the
-- counters stay balanced: `chunks_in_use` and `oversized_bytes_in_use` of the pool, and
-- `chunks_in_use` and `bytes_in_use` of each tenant, state as 64-bit words do what the builders and
-- chunks that are alive were charged for, beside what the tenants were charged for elsewhere.
pub Ops-Balanced :
    (place : Layout → Memory → ℕ) (before : Tenants) (w : State) (accounts : List Account)
    (v : State) (accounts' : List Account)
    → Ops place w accounts v accounts'
    → Balanced before w accounts
    → Balanced before v accounts'
Ops-Balanced place before w accounts _ _ none_yet k = k
Ops-Balanced place before w accounts v last (and_op {u = u} {accounts' = middle} r o) k =
    Op-Balanced place before u v middle last o (Ops-Balanced place before w accounts u middle r k)
