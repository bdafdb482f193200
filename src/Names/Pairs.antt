-- ===== src/Names/Pairs.antt =====
-- The rows of a table of names and numbers, and the searches of src/mms_util.c in it.
use Prim.Native.Char.{code}
use Prim.Native.String.{String}
use broncho_mms.Base.{
  [], ◌∷◌, List, ℕ, ◌^◌, Option, ◌-◌, none, if◌then◌else◌, Bool, true, ◌==◌, false, some, ◌&&◌,
}
use broncho_mms.Memory.{CString}

-- The code points of a text: the bytes of a C string, all names being ASCII.
abbrev pub codes : String → CString
codes String.[] = []
codes (String.◌∷◌ c s) = code c ∷ codes s

pub record NameIdPair : Type 0 where
  pub name : CString
  pub id : ℕ

abbrev pub pair : String → ℕ → NameIdPair
pair name id = record { name = codes name; id = id }

-- `strcmp(s, t) == 0`
unfoldable pub same_text : CString → CString → Bool
same_text [] [] = true
same_text [] (d ∷ t) = false
same_text (c ∷ s) [] = false
same_text (c ∷ s) (d ∷ t) = (c == d) && same_text s t

-- The number -1 of a name that the table does not have.
abbrev pub unknown : ℕ
unknown = 2 ^ 32 - 1

-- A table ends before its NULL row.
unfoldable pub name_to_id : List NameIdPair → CString → ℕ
unfolding same_text
name_to_id [] name = unknown
name_to_id (p ∷ pairs) name = if same_text p.name name then p.id else name_to_id pairs name

unfoldable pub id_to_name : List NameIdPair → ℕ → Option CString
id_to_name [] id = none
id_to_name (p ∷ pairs) id = if p.id == id then some p.name else id_to_name pairs id
