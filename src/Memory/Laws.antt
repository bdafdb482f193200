-- ===== src/Memory/Laws.antt =====
-- Laws of writes into a block and of C strings in it.
use broncho_mms.Base.{
  ℕ, ◌+◌, ◌≤◌, ◌<◌, ◌≡◌, refl, sym, ap, ◌∙◌, some, List, [], ◌∷◌, ◌++◌, append_assoc, arith, length,
  take, drop, le→leb, length-append, length-take, length-drop, take-append, take-take, Option-cases,
  inl, inr, get_elem?, get_elem?-append_seam, get_elem?-append_left, get_elem?-take,
}
use broncho_mms.Memory.{Block, CString, write_bytes, c_string, store_at}

-- The block after a write that stays inside it.
abbrev pub written : Block → ℕ → List ℕ → Block
written b offset bytes = take offset b ++ (bytes ++ drop (offset + length bytes) b)

pub write_bytes_inside :
    (b : Block) (offset : ℕ) (bytes : List ℕ)
    → offset + length bytes ≤ length b
    → write_bytes b offset bytes ≡ some (written b offset bytes)
unfolding write_bytes
write_bytes_inside b offset bytes h = rw (le→leb _ _ h)

pub length-written :
    (b : Block) (offset : ℕ) (bytes : List ℕ)
    → offset + length bytes ≤ length b
    → length (written b offset bytes) ≡ length b
length-written b offset bytes h = omega (
  arith,
  length-append (take offset b) (bytes ++ drop (offset + length bytes) b),
  length-append bytes (drop (offset + length bytes) b),
  length-take offset b (omega arith),
  length-drop (offset + length bytes) b,
)

-- Up to its end a write shows what stood before its start, and the bytes written.
pub take-written :
    (b : Block) (offset : ℕ) (bytes : List ℕ)
    → offset + length bytes ≤ length b
    → take (offset + length bytes) (written b offset bytes) ≡ take offset b ++ bytes
take-written b offset bytes h =
    ap (take (offset + length bytes)) (sym (append_assoc (take offset b) bytes _))
    ∙ take-append (take offset b ++ bytes) _ _
        (omega (arith, length-append (take offset b) bytes, length-take offset b (omega arith)))

-- A write leaves what stands before its start.
pub take-written_before :
    (b : Block) (k offset : ℕ) (bytes : List ℕ)
    → k ≤ offset
    → offset + length bytes ≤ length b
    → take k (written b offset bytes) ≡ take k b
take-written_before b k offset bytes h fits =
    sym (take-take k offset (written b offset bytes) h)
    ∙ ap (take k) (take-append (take offset b) _ offset (sym (length-take offset b (omega arith))))
    ∙ take-take k offset b h

-- A string of bytes other than NUL, behind a NUL in memory, reads back.
abbrev pub NoNul : List ℕ → Type 0
NoNul [] = Unit {0}
NoNul (c ∷ cs) = (0 < c) × NoNul cs

pub c_string-append : (s rest : List ℕ) → NoNul s → c_string (s ++ (0 ∷ rest)) ≡ some s
unfolding c_string
c_string-append [] rest h = refl
c_string-append (c ∷ s) rest h = ground (arith, c_string-append s rest h.1)

-- What `strlen` walks over lies in the object, with a NUL behind it.
pub c_string_inside : (b : Block) {s : CString} → c_string b ≡ some s → length s < length b
unfolding c_string
c_string_inside [] h = cc
c_string_inside (c ∷ b) {s} h = elim (Option-cases (c_string b)) [
  | inl e ↦ ground (arith, e)
  | inr (t, e) ↦ ground (arith, e, c_string_inside b e)
]

-- An array after a write: the slots below keep their values, and the slot holds the new one.
pub get_elem?-written_before :
    (b : Block) (k offset : ℕ) (bytes : List ℕ)
    → k < offset
    → offset ≤ length b
    → get_elem? (written b offset bytes) k ≡ get_elem? b k
get_elem?-written_before b k offset bytes h fits =
    get_elem?-append_left (take offset b) _ k (omega (arith, length-take offset b fits))
    ∙ get_elem?-take offset b k h

pub get_elem?-written_at :
    (b : Block) (k v : ℕ) → k ≤ length b → get_elem? (written b k (v ∷ [])) k ≡ some v
get_elem?-written_at b k v fits =
    get_elem?-append_seam (take k b) _ v k (sym (length-take k b fits))

pub store_at_inside :
    (b : Block) (k v : ℕ) → k < length b → store_at b k v ≡ some (written b k (v ∷ []))
unfolding store_at
store_at_inside b k v h = write_bytes_inside b k (v ∷ []) (omega arith)
