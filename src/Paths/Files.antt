-- ===== src/Paths/Files.antt =====
-- Extensions and base names of files.
use broncho_mms.Base.{
  [], ◌∷◌, ℕ, Option, ◌≡◌, drop, length, none, ◌+◌, ◌++◌, some, length-append, ap, sym,
  append_assoc, ◌∙◌, drop-append,
}
use broncho_mms.Memory.{CString}
use broncho_mms.Paths.Search.{strrchr, or_else, strrchr-append}

-- `none` is the NULL of a name without a dot.
unfoldable pub get_file_ext_name : CString → Option CString
unfolding strrchr
get_file_ext_name filename = elim (strrchr b'.' filename) [
  | none ↦ none
  | some i ↦ some (drop (i + 1) filename)
]

unfoldable pub get_file_name : CString → CString
unfolding strrchr
get_file_name filename = elim (or_else (strrchr b'/' filename) (strrchr b'\\' filename)) [
  | none ↦ filename
  | some i ↦ drop (i + 1) filename
]

pub past_mark : (c : ℕ) (s t : CString) → drop (length s + 1) (s ++ (c ∷ t)) ≡ t
past_mark c s t =
    let one : length (s ++ (c ∷ [])) ≡ length s + 1 = length-append s (c ∷ []) in
    ap (drop (length s + 1)) (sym (append_assoc s (c ∷ []) t))
    ∙ drop-append (s ++ (c ∷ [])) t (length s + 1) (sym one)

-- Of a name stem.ext with no dot in the extension, `get_file_ext_name` returns the extension.
pub get_file_ext_name_lem :
    (stem ext : CString)
    → strrchr b'.' ext ≡ none
    → get_file_ext_name (stem ++ (b'.' ∷ ext)) ≡ some ext
unfolding get_file_ext_name
get_file_ext_name_lem stem ext h =
    rw (get_file_ext_name, strrchr-append b'.' stem ext h) (ap some (past_mark b'.' stem ext))

-- Of a path folder/name with no slash in the name, `get_file_name` returns the name.
pub get_file_name_lem :
    (folder name : CString)
    → strrchr b'/' name ≡ none
    → get_file_name (folder ++ (b'/' ∷ name)) ≡ name
unfolding get_file_name
get_file_name_lem folder name h =
    rw (get_file_name, strrchr-append b'/' folder name h) (past_mark b'/' folder name)
