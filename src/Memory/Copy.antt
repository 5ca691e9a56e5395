-- ===== src/Memory/Copy.antt =====
-- What a raw copy writes, and what it leaves alone.
use paged_alloc.Base.{
  ℕ, zero, suc, ◌+◌, ◌++◌, ap, take, ◌≤◌, ◌≡◌, refl, ◌∙◌, List, [], ◌∷◌, arith, length, ap₂, ne→==,
  ==_refl,
}
use paged_alloc.Memory.{Bytes, write_bytes, read_bytes}
use paged_alloc.Memory.Region.{Same, SameOutside}

pub write_bytes_outside :
    (m : Bytes) (a : ℕ) (bs : List ℕ) → SameOutside a (length bs) m (write_bytes m a bs)
unfolding write_bytes
write_bytes_outside m a [] q out = refl
write_bytes_outside m a (b ∷ bs) q out =
    rw (ne→== a q (omega arith)) (write_bytes_outside m (suc a) bs q (omega arith))

pub read_bytes-Same :
    (a n : ℕ) {m m' : Bytes} → Same a n m m' → read_bytes m' a n ≡ read_bytes m a n
unfolding read_bytes
read_bytes-Same a zero same = refl
read_bytes-Same a (suc n) same =
    ap₂ ◌∷◌ (same a (omega arith) (omega arith))
      (read_bytes-Same (suc a) n (λ q lo hi. same q (omega arith) (omega arith)))

pub read-write_bytes :
    (m : Bytes) (a : ℕ) (bs : List ℕ) → read_bytes (write_bytes m a bs) a (length bs) ≡ bs
unfolding read_bytes write_bytes
read-write_bytes m a [] = refl
read-write_bytes m a (b ∷ bs) = ap₂ ◌∷◌ (rw (==_refl a)) (
    read_bytes-Same (suc a) (length bs) (λ q lo hi. rw (ne→== a q (omega arith)))
    ∙ read-write_bytes m (suc a) bs)

pub length-read_bytes : (m : Bytes) (a n : ℕ) → length (read_bytes m a n) ≡ n
unfolding read_bytes
length-read_bytes m a zero = refl
length-read_bytes m a (suc n) = omega (arith, length-read_bytes m (suc a) n)

suc_add : (k n : ℕ) → suc k + n ≡ suc (k + n)
suc_add k n = omega arith

-- Two neighbouring ranges are read as one.
pub read_bytes-add :
    (m : Bytes) (a k n : ℕ) → read_bytes m a (k + n) ≡ read_bytes m a k ++ read_bytes m (a + k) n
unfolding read_bytes
read_bytes-add m a zero n = ap₂ (read_bytes m) (omega arith) (omega arith)
read_bytes-add m a (suc k) n = rw (suc_add k n) (
    ap (◌∷◌ (m a)) (
      read_bytes-add m (suc a) k n
      ∙ ap (λ (t : ℕ). read_bytes m (suc a) k ++ read_bytes m t n) (omega arith)))

-- The first bytes of a longer range.
pub read_bytes-take : (m : Bytes) (a k n : ℕ) → k ≤ n → read_bytes m a k ≡ take k (read_bytes m a n)
unfolding read_bytes
read_bytes-take m a zero n le = refl
read_bytes-take m a (suc k) zero le = absurd (omega arith)
read_bytes-take m a (suc k) (suc n) le =
    ap (◌∷◌ (m a)) (read_bytes-take m (suc a) k n (omega arith))
