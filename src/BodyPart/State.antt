-- ===== src/BodyPart/State.antt =====
-- The state and the readers of src/mms_body_part.c. A header is NULL once it is detached, and where
-- it could not be created. The data are the object from where they begin.
use broncho_mms.Base.{none, some, Option, ℕ, and_then, Bool, if◌then◌else◌, false, true, ◌||◌}
use broncho_mms.Memory.{Block, CString, Allocator}
use broncho_mms.Header.State.{header_get_string, header_get_content_type, header_create, MmsHeader}
use broncho_mms.ContentType.State.{
  content_type_get_content_type_name, content_type_get_param_name, MmsContentType,
  content_type_get_param_filename,
}
use broncho_mms.Names.Pairs.{same_text, codes}
use broncho_mms.Paths.Files.{get_file_name}
use broncho_mms.HeaderCodec.Kinds.{text_at}

pub record MmsBodyPart : Type 0 where
  pub header : Option MmsHeader
  pub content : Option Block
  pub length : ℕ
  pub header_offset : ℕ
  pub data_offset : ℕ

-- `sizeof(MmsBodyPart)`: six words.
abbrev pub body_part_size : ℕ
body_part_size = 24

unfoldable pub body_part_create : Allocator → Option MmsBodyPart
unfolding header_create
body_part_create a = and_then (a.calloc body_part_size) λ _. some (record {
  header = header_create a;
  content = none;
  length = 0;
  header_offset = 0;
  data_offset = 0;
})

-- The header given is another than the part's.
unfoldable pub body_part_set_header : Option MmsHeader → MmsBodyPart → MmsBodyPart
body_part_set_header h p = record p { header = h }

unfoldable pub body_part_detach_header : MmsBodyPart → MmsBodyPart
body_part_detach_header p = record p { header = none }

unfoldable pub body_part_set_data : Option Block → ℕ → MmsBodyPart → MmsBodyPart
body_part_set_data b n p = record p { content = b; length = n }

-- `mms_header_get_string` and `mms_header_get_content_type` on a header that may be NULL.
unfoldable pub header_text : CString → Option MmsHeader → Option (Option CString)
unfolding header_get_string
header_text name none = some none
header_text name (some h) = and_then (header_get_string name h) λ p. text_at p

unfoldable pub header_content_type : Option MmsHeader → Option (Option MmsContentType)
unfolding header_get_content_type
header_content_type none = some none
header_content_type (some h) = header_get_content_type h

-- The first name that is there.
abbrev pub or_next : Option (Option CString) → Option (Option CString) → Option (Option CString)
or_next r next = and_then r λ name. elim name [ some s ↦ some (some s) | none ↦ next ]

-- The names that the content type has, and the content id behind them.
unfoldable pub name_by_type :
    Option MmsContentType → Option (Option CString) → Option (Option CString)
unfolding content_type_get_param_name content_type_get_param_filename
name_by_type none cid = some none
name_by_type (some t) cid =
    or_next (some (content_type_get_param_name t))
      (or_next (some (content_type_get_param_filename t)) cid)

unfoldable pub body_part_get_name : MmsBodyPart → Option (Option CString)
unfolding header_text header_content_type name_by_type
body_part_get_name p = or_next (header_text (codes "Content-Location") p.header) (
    and_then (header_content_type p.header)
      λ t. name_by_type t (header_text (codes "Content-ID") p.header))

unfoldable pub body_part_get_cid : MmsBodyPart → Option (Option CString)
unfolding header_text
body_part_get_cid p = header_text (codes "Content-ID") p.header

unfoldable pub body_part_get_content_type : MmsBodyPart → Option (Option CString)
unfolding header_content_type content_type_get_content_type_name
body_part_get_content_type p =
    and_then (header_content_type p.header)
      λ t. some (and_then t content_type_get_content_type_name)

-- `name != NULL && strcmp(name, filename) == 0`
unfoldable pub is_named : CString → Option CString → Bool
unfolding same_text
is_named filename none = false
is_named filename (some name) = same_text name filename

-- The comparison with the content type, which returns 0 where there is none.
unfoldable pub compare_by_type : CString → Option MmsContentType → Bool
unfolding is_named content_type_get_param_name content_type_get_param_filename
compare_by_type filename none = true
compare_by_type filename (some t) =
    is_named filename (content_type_get_param_name t)
    || is_named filename (content_type_get_param_filename t)

-- Whether `mms_body_part_compare_by_name` returns 0.
unfoldable pub body_part_compare_by_name : MmsBodyPart → CString → Option Bool
unfolding header_text is_named get_file_name compare_by_type header_content_type
body_part_compare_by_name p path =
    let filename = get_file_name path in
    and_then (header_text (codes "Content-ID") p.header) λ cid.
      if is_named filename cid
      then some true
      else and_then (header_text (codes "Content-Location") p.header) λ location.
        if is_named filename location
        then some true
        else and_then (header_content_type p.header) λ t. some (compare_by_type filename t)
