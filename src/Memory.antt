-- ===== src/Memory.antt =====
-- Objects in memory: a block of bytes, the C library's accesses to it, and the allocator that
-- src/mms_linux.h maps `mms_malloc`, `mms_calloc` and `mms_realloc` to.
pub mod Laws
use broncho_mms.Base.{
  ℕ, zero, suc, ◌+◌, ◌≤◌, ◌≡◌, Bool, Option, none, some, List, [], ◌∷◌, ◌++◌, leb, ◌==◌, length,
  take, drop, get_elem?, if◌then◌else◌, and_then,
}

-- The bytes of an object. A C string is the list of its bytes before the NUL.
abbrev pub Block : Type 0
Block = List ℕ

abbrev pub CString : Type 0
CString = List ℕ

-- `memcpy(block + offset, bytes, n)`; `none` if it leaves the object.
unfoldable pub write_bytes : Block → ℕ → List ℕ → Option Block
write_bytes b offset bytes =
    if leb (offset + length bytes) (length b)
    then some (take offset b ++ (bytes ++ drop (offset + length bytes) b))
    else none

-- `array[i] = v`
unfoldable pub store_at : Block → ℕ → ℕ → Option Block
unfolding write_bytes
store_at b i v = write_bytes b i (v ∷ [])

-- The C string that starts a block; `none` if the object ends before a NUL.
unfoldable pub c_string : Block → Option CString
c_string [] = none
c_string (c ∷ cs) =
    let rest = c_string cs in if c == 0 then some [] else and_then rest (λ s. some (c ∷ s))

-- What `malloc`, `calloc` and `realloc` return for a size; `none` is NULL. The contents of fresh
-- memory are the allocator's.
pub record Allocator : Type 0 where
  pub malloc : ℕ → Option Block
  pub calloc : ℕ → Option Block
  pub realloc : Block → ℕ → Option Block

-- What the C standard says of them: the size asked for, and `realloc` keeps the old contents as far
-- as both sizes reach.
pub record IsAllocator (a : Allocator) : Type 0 where
  pub malloc_size : (n : ℕ) (b : Block) → a.malloc n ≡ some b → length b ≡ n
  pub realloc_size : (old : Block) (n : ℕ) (b : Block) → a.realloc old n ≡ some b → length b ≡ n
  pub realloc_keeps :
      (old : Block) (n k : ℕ) (b : Block)
      → a.realloc old n ≡ some b
      → k ≤ length old
      → k ≤ n
      → take k b ≡ take k old

-- The allocator serves each request up to `most` bytes.
pub record Serves (a : Allocator) (most : ℕ) : Type 0 where
  pub malloc_some : (n : ℕ) → n ≤ most → (b : Block) × (a.malloc n ≡ some b)
  pub calloc_some : (n : ℕ) → n ≤ most → (b : Block) × (a.calloc n ≡ some b)
  pub realloc_some : (old : Block) (n : ℕ) → n ≤ most → (b : Block) × (a.realloc old n ≡ some b)
