-- ===== src/Memory.antt =====
-- Process memory as the crate sees it: bytes at addresses, raw copies, and a pointer kept in the
-- first eight bytes of a free buffer (`ptr::read` and `ptr::write` in src/pool.rs).
pub mod Region
pub mod Copy
pub mod Pointer
use paged_alloc.Base.{ℕ, zero, suc, ◌+◌, ◌*◌, ◌/◌, ◌%◌, List, [], ◌∷◌, ◌==◌, if◌then◌else◌}

abbrev pub Bytes : Type 0
Bytes = ℕ → ℕ

pub poke : Bytes → ℕ → ℕ → Bytes
poke m a b q = if a == q then b else m q

-- `ptr::copy_nonoverlapping` of `bs` to address `a`.
unfoldable pub write_bytes : Bytes → ℕ → List ℕ → Bytes
unfolding poke
write_bytes m a [] = m
write_bytes m a (b ∷ bs) = poke (write_bytes m (suc a) bs) a b

-- `slice::from_raw_parts` at address `a`.
unfoldable pub read_bytes : Bytes → ℕ → ℕ → List ℕ
read_bytes m a zero = []
read_bytes m a (suc n) = m a ∷ read_bytes m (suc a) n

-- `size_of::<*mut u8>()`.
abbrev pub ptr_size : ℕ
ptr_size = 8

-- The bytes of a pointer, the lowest first.
unfoldable pub encode : ℕ → ℕ → List ℕ
encode zero p = []
encode (suc n) p = (p % 256) ∷ encode n (p / 256)

unfoldable pub decode : List ℕ → ℕ
decode [] = 0
decode (b ∷ bs) = b + decode bs * 256

-- `ptr::read(a as *const *mut u8)`.
unfoldable pub read_ptr : Bytes → ℕ → ℕ
read_ptr m a = decode (read_bytes m a ptr_size)

-- `ptr::write(a as *mut *mut u8, p)`.
unfoldable pub write_ptr : Bytes → ℕ → ℕ → Bytes
write_ptr m a p = write_bytes m a (encode ptr_size p)
