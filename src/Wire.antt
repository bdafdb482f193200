-- ===== src/Wire.antt =====
-- The byte formats of WAP (WSP) and MMS headers, apart from the code that writes and reads them.
-- They are what src/mms_output_buffer.c writes and src/mms_input_buffer.c reads back.
pub mod Sizes
use broncho_mms.Base.{
  ℕ, zero, suc, ◌+◌, ◌*◌, ◌/◌, ◌%◌, ◌^◌, List, [], ◌∷◌, ◌++◌, ltb, leb, if◌then◌else◌,
}

-- The low `n` bytes of a number, highest first.
abbrev pub big_endian : ℕ → ℕ → List ℕ
big_endian zero v = []
big_endian (suc i) v = (v / 2 ^ (8 * i) % 256) ∷ big_endian i v

-- The groups of seven bits `i` to 0, highest first; all but the last have the top bit set.
abbrev pub groups : ℕ → ℕ → List ℕ
groups zero v = (v % 128) ∷ []
groups (suc i) v = (v / 128 ^ suc i % 128 + 128) ∷ groups i v

-- The highest group of a 32-bit number that is not empty; 0 for 0.
abbrev pub top_group : ℕ → ℕ
top_group v =
    if ltb v 128
    then 0
    else if ltb v (2 ^ 14)
    then 1
    else if ltb v (2 ^ 21)
    then 2
    else if ltb v (2 ^ 28)
    then 3
    else 4

-- A uintvar.
abbrev pub var_int_bytes : ℕ → List ℕ
var_int_bytes v = groups (top_group v) v

-- How many bytes a 32-bit number takes; 1 for 0.
abbrev pub octet_count : ℕ → ℕ
octet_count v =
    if ltb v (2 ^ 8) then 1 else if ltb v (2 ^ 16) then 2 else if ltb v (2 ^ 24) then 3 else 4

-- A Long-integer: a count of bytes, then the bytes.
abbrev pub long_int_bytes : ℕ → List ℕ
long_int_bytes v = octet_count v ∷ big_endian (octet_count v) v

-- A Short-integer, below 128.
abbrev pub short_int_bytes : ℕ → List ℕ
short_int_bytes v = (v + 128) ∷ []

-- An Integer-value.
abbrev pub int_bytes : ℕ → List ℕ
int_bytes v = if leb v 0x7f then short_int_bytes v else long_int_bytes v

-- A Value-length.
abbrev pub value_length_bytes : ℕ → List ℕ
value_length_bytes v = if leb v 30 then v ∷ [] else 31 ∷ var_int_bytes v

-- A Text-string with its NUL.
abbrev pub text_bytes : List ℕ → List ℕ
text_bytes s = s ++ (0 ∷ [])
