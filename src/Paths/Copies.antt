-- ===== src/Paths/Copies.antt =====
-- Copies of strings in memory of their own, as src/mms_util.c makes them.
use broncho_mms.Base.{
  none, some, zero, suc, if◌then◌else◌, [], ◌∷◌, List, ℕ, Option, take, ◌≡◌, length, some, suc,
  ◌++◌, add32, if◌then◌else◌, ◌∙◌, ◌<◌, arith, ◌+◌, ◌≤◌, length-append, ap, append_assoc, leb,
  and_then, true, take-append_le, length-take, le→leb, drop,
}
use broncho_mms.Memory.{
  Allocator, Block, write_bytes, CString, IsAllocator, Serves, store_at, c_string,
}
use broncho_mms.Memory.Laws.{
  NoNul, written, write_bytes_inside, c_string-append, length-written, take-written,
  store_at_inside,
}
use broncho_mms.Output.Valid.{most_room, most_data}
use broncho_mms.Output.Encode.{int_positive}
use broncho_mms.Wire.{text_bytes}

module _ (a : Allocator) where
  -- A NULL string has a NULL copy; so has any string where there is no memory.
  unfoldable pub strdup : Option CString → Option (Option Block)
  unfolding write_bytes
  strdup none = some none
  strdup (some s) = elim (a.malloc (add32 (length s) 1)) [
    | none ↦ some none
    | some p ↦ and_then (write_bytes p 0 (text_bytes s)) λ p'. some (some p')
  ]

  -- The first `n` bytes of a string and its NUL, and a NUL behind them.
  unfoldable pub copy_bytes : CString → ℕ → Option (Option Block)
  unfolding write_bytes store_at
  copy_bytes s n = elim (a.malloc (add32 n 1)) [
    | none ↦ some none
    | some p ↦
        if leb n (length s + 1)
        then (and_then (write_bytes p 0 (take n (text_bytes s)))
            λ p'. and_then (store_at p' n 0) λ p''. some (some p''))
        else none
  ]

  -- `count` is the pattern of an `int`; the whole string if it is not positive.
  unfoldable pub strndup : Option CString → ℕ → Option (Option Block)
  unfolding copy_bytes
  strndup none count = some none
  strndup (some s) count = copy_bytes s (if int_positive count then count else length s)

NoNul-take : (n : ℕ) (s : List ℕ) → NoNul s → NoNul (take n s)
NoNul-take zero s h = tt
NoNul-take (suc n) [] h = tt
NoNul-take (suc n) (c ∷ s) h = (h.0, NoNul-take n s h.1)

-- A copy is a block of its own that holds the text.
abbrev pub Copy : Option (Option Block) → CString → Type 0
Copy r s = (p : Block) × (r ≡ some (some p)) × (c_string p ≡ some s)

module _ (a : Allocator) (good : IsAllocator a) (serves : Serves a most_room) where
  -- With an allocator that serves every request up to 3 GiB, `strdup` of a text without NUL below
  -- 1 GiB returns a block whose C string is the text.
  pub strdup-Copy : (s : CString) → NoNul s → length s < most_data → Copy (strdup a (some s)) s
  unfolding strdup
  strdup-Copy s h small =
      let (p, served) = serves.malloc_some (add32 (length s) 1) (omega arith) in
      let size : length p ≡ length s + 1 = omega (arith, good.malloc_size _ p served) in
      let fits : 0 + length (text_bytes s) ≤ length p = omega (arith, length-append s (0 ∷ [])) in
      (
        written p 0 (text_bytes s),
        rw (strdup, served) (rw (write_bytes_inside p 0 (text_bytes s) fits)),
        ap c_string (append_assoc s (0 ∷ []) _) ∙ c_string-append s _ h,
      )

  -- With an allocator that serves every request up to 3 GiB, `strndup` of a text without NUL and a
  -- positive count up to its length and below 1 GiB returns a block whose C string is that many
  -- bytes from the text's start.
  pub strndup-Copy :
      (s : CString) (n : ℕ)
      → NoNul s
      → 0 < n
      → n ≤ length s
      → n < most_data
      → Copy (strndup a (some s) n) (take n s)
  unfolding strndup copy_bytes
  strndup-Copy s n h pos inside small =
      let positive : int_positive n ≡ true = ground arith in
      let (p, served) = serves.malloc_some (add32 n 1) (omega arith) in
      let size : length p ≡ n + 1 = omega (arith, good.malloc_size _ p served) in
      let bytes : List ℕ = take n (text_bytes s) in
      let cut : bytes ≡ take n s = take-append_le n s (0 ∷ []) inside in
      let count : length bytes ≡ n = ap length cut ∙ length-take n s inside in
      let fits : 0 + length bytes ≤ length p = omega arith in
      let p' : Block = written p 0 bytes in
      let size' : length p' ≡ n + 1 = length-written p 0 bytes fits ∙ size in
      let end : n ≡ 0 + length bytes = omega (arith, count) in
      let whole : take n p' ≡ take n s =
        ap (λ (t : ℕ). take t p') end ∙ take-written p 0 bytes fits ∙ cut in
      (
        written p' n (0 ∷ []),
        rw (strndup, positive)
            (rw (copy_bytes, served, le→leb n (length s + 1) (omega arith))
              (rw (write_bytes_inside p 0 bytes fits) (rw (store_at_inside p' n 0 (omega arith))))),
        ap (λ (t : List ℕ). c_string (t ++ (0 ∷ drop (n + 1) p'))) whole
            ∙ c_string-append (take n s) _ (NoNul-take n s h),
      )
