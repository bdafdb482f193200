-- ===== src/ContentType/State.antt =====
-- The content type of src/mms_content_type.c and its accessors. The arrays of the struct keep their
-- last byte NUL: each is given as the C string in it.
use broncho_mms.Base.{
  none, some, [], ◌∷◌, Bool, Option, ℕ, ◌||◌, if◌then◌else◌, and_then, take, false, true, ◌==◌,
  ◌&&◌, ltb, get_elem?,
}
use broncho_mms.ContentType.Table.{g_content_types}
use broncho_mms.Output.Encode.{int_negative}
use broncho_mms.Names.Pairs.{name_to_id, unknown, same_text, codes}
use broncho_mms.Memory.{CString, Allocator}
use broncho_mms.Output.State.{MmsResult, result_fail, result_ok}

abbrev pub mms_name_length : ℕ
mms_name_length = 64

abbrev pub mms_max_path : ℕ
mms_max_path = 260

abbrev pub content_type_nr : ℕ
content_type_nr = 76

pub record MmsContentType : Type 0 where
  pub id : ℕ
  pub name : CString
  pub param_type : CString
  pub param_name : CString
  pub param_filename : CString
  pub param_start : CString
  pub param_charset : CString

-- `sizeof(MmsContentType)`: an `int`, four arrays of 65 bytes and two of 261, on a word boundary.
abbrev pub content_type_size : ℕ
content_type_size = 788

abbrev pub no_content_type : MmsContentType
no_content_type = record {
  id = unknown;
  name = [];
  param_type = [];
  param_name = [];
  param_filename = [];
  param_start = [];
  param_charset = [];
}

unfoldable pub content_type_create : Allocator → Option MmsContentType
content_type_create a = and_then (a.calloc content_type_size) λ _. some no_content_type

-- `array[0] != 0`
abbrev pub filled : CString → Bool
filled [] = false
filled (c ∷ s) = true

unfoldable pub content_type_has_params : MmsContentType → Bool
content_type_has_params t =
    filled t.param_name || filled t.param_type || filled t.param_filename || filled t.param_start

-- `strncpy` of at most `n` bytes into an array of `n + 1`
abbrev pub copied : ℕ → CString → CString
copied n s = take n s

-- A negative id is a pattern above all.
unfoldable pub content_type_set_content_type_by_id :
    ℕ → MmsContentType → Option (MmsResult × MmsContentType)
unfolding g_content_types
content_type_set_content_type_by_id id t =
    if ltb id content_type_nr
    then (and_then (get_elem? g_content_types id)
        λ p. some (result_ok, record t { id = id; name = copied mms_name_length p.name }))
    else some (result_fail, t)

unfoldable pub content_type_get_content_type_id : MmsContentType → ℕ
content_type_get_content_type_id t = t.id

unfoldable pub content_type_set_content_type_by_name :
    Option CString → MmsContentType → MmsResult × MmsContentType
unfolding name_to_id g_content_types
content_type_set_content_type_by_name none t = (result_fail, t)
content_type_set_content_type_by_name (some name) t = (
  result_ok,
  record t { id = name_to_id g_content_types name; name = copied mms_name_length name },
)

unfoldable pub content_type_set_param_name :
    Option CString → MmsContentType → MmsResult × MmsContentType
content_type_set_param_name none t = (result_fail, t)
content_type_set_param_name (some name) t =
    (result_ok, record t { param_name = copied mms_max_path name })

unfoldable pub content_type_set_param_filename :
    Option CString → MmsContentType → MmsResult × MmsContentType
content_type_set_param_filename none t = (result_fail, t)
content_type_set_param_filename (some filename) t =
    (result_ok, record t { param_filename = copied mms_max_path filename })

unfoldable pub content_type_set_param_type :
    Option CString → MmsContentType → MmsResult × MmsContentType
content_type_set_param_type none t = (result_fail, t)
content_type_set_param_type (some type) t =
    (result_ok, record t { param_type = copied mms_name_length type })

unfoldable pub content_type_set_param_start :
    Option CString → MmsContentType → MmsResult × MmsContentType
content_type_set_param_start none t = (result_fail, t)
content_type_set_param_start (some start) t =
    (result_ok, record t { param_start = copied mms_name_length start })

unfoldable pub content_type_set_param_charset :
    Option CString → MmsContentType → MmsResult × MmsContentType
content_type_set_param_charset none t = (result_fail, t)
content_type_set_param_charset (some charset) t =
    (result_ok, record t { param_charset = copied mms_name_length charset })

-- The string of an array, or NULL where it is empty.
abbrev pub if_filled : CString → Option CString
if_filled s = if filled s then some s else none

unfoldable pub content_type_get_content_type_name : MmsContentType → Option CString
content_type_get_content_type_name t = if_filled t.name

unfoldable pub content_type_get_param_name : MmsContentType → Option CString
content_type_get_param_name t = if_filled t.param_name

unfoldable pub content_type_get_param_filename : MmsContentType → Option CString
content_type_get_param_filename t = if_filled t.param_filename

unfoldable pub content_type_get_param_type : MmsContentType → Option CString
content_type_get_param_type t = if_filled t.param_type

unfoldable pub content_type_get_param_start : MmsContentType → Option CString
content_type_get_param_start t = if_filled t.param_start

unfoldable pub content_type_get_param_charset : MmsContentType → Option CString
content_type_get_param_charset t = if_filled t.param_charset

unfoldable pub content_type_is_content_type : CString → Bool
unfolding same_text
content_type_is_content_type name = same_text name (codes "Content-Type")

-- `strncmp(s, prefix, strlen(prefix)) == 0`
unfoldable pub has_prefix : CString → CString → Bool
has_prefix [] s = true
has_prefix (c ∷ prefix) [] = false
has_prefix (c ∷ prefix) (d ∷ s) = (c == d) && has_prefix prefix s

-- `thiz->name == NULL`: the address of an array is never NULL.
abbrev name_is_null : Bool
name_is_null = false

unfoldable pub content_type_is_multi_part : MmsContentType → Bool
unfolding has_prefix
content_type_is_multi_part t =
    if int_negative t.id
    then has_prefix (codes "multipart/") t.name
    else ltb t.id content_type_nr
      && name_is_null
      && (has_prefix (codes "multipart") t.name
          || has_prefix (codes "application/vnd.wap.multipart") t.name)
