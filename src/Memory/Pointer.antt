-- ===== src/Memory/Pointer.antt =====
-- A pointer written into a buffer is read back, and other buffers keep theirs.
use paged_alloc.Base.{ℕ, zero, suc, ◌/◌, ◌^◌, ◌<◌, ◌≡◌, refl, ap, ◌∙◌, subst, arith, length, word}
use native.Mathlib.Nat.{pow-suc}
use paged_alloc.Memory.{
  Bytes, ptr_size, encode, decode, read_bytes, write_bytes, read_ptr, write_ptr,
}
use paged_alloc.Memory.Region.{Same, SameOutside}
use paged_alloc.Memory.Copy.{write_bytes_outside, read_bytes-Same, read-write_bytes}

length-encode : (n p : ℕ) → length (encode n p) ≡ n
unfolding encode
length-encode zero p = refl
length-encode (suc n) p = ap suc (length-encode n (p / 256))

decode-encode : (n p : ℕ) → p < 256 ^ n → decode (encode n p) ≡ p
unfolding decode encode
decode-encode zero p lt = omega arith
decode-encode (suc n) p lt = omega (arith, decode-encode n (p / 256) (omega (arith, pow-suc 256 n)))

-- A pointer fits in the eight bytes that hold it.
pub read-write_ptr : (m : Bytes) (a p : ℕ) → p < word → read_ptr (write_ptr m a p) a ≡ p
unfolding read_ptr write_ptr
read-write_ptr m a p lt =
    ap decode (
      subst (λ n. read_bytes (write_bytes m a (encode ptr_size p)) a n ≡ encode ptr_size p)
        (length-encode ptr_size p) (read-write_bytes m a (encode ptr_size p)))
    ∙ decode-encode ptr_size p lt

pub write_ptr_outside : (m : Bytes) (a p : ℕ) → SameOutside a ptr_size m (write_ptr m a p)
unfolding write_ptr
write_ptr_outside m a p =
    subst (λ n. SameOutside a n m (write_bytes m a (encode ptr_size p))) (length-encode ptr_size p)
      (write_bytes_outside m a (encode ptr_size p))

pub read_ptr-Same : (a : ℕ) {m m' : Bytes} → Same a ptr_size m m' → read_ptr m' a ≡ read_ptr m a
unfolding read_ptr
read_ptr-Same a same = ap decode (read_bytes-Same a ptr_size same)
