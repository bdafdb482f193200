-- ===== src/HeaderCodec/Kinds.antt =====
-- The cases of the two `switch` statements of src/mms_header_codec.c, and the members of an item.
use broncho_mms.Base.{none, some, ℕ, Option, if◌then◌else◌, ◌==◌, ◌||◌, and_then}
use broncho_mms.Memory.{Block, CString, c_string}
use broncho_mms.Items.{ItemValue, long_int, string, encoded_string, time, data_and_destroy}
use broncho_mms.ContentType.State.{MmsContentType}

-- The cases that share a body.
pub data HeaderKind : Type 0 where
  content_type_kind long_kind token_kind string_kind text_kind time_kind address_kind : HeaderKind
  class_kind version_kind retrieve_kind other_kind : HeaderKind

unfoldable pub header_kind : ℕ → HeaderKind
header_kind id =
    if id == 4
    then content_type_kind
    else if id == 14 || id == 5
    then long_kind
    else if id == 12
        || id == 6
        || id == 15
        || id == 16
        || id == 17
        || id == 18
        || id == 20
        || id == 21
    then token_kind
    else if id == 3 || id == 24
    then string_kind
    else if id == 1 || id == 2 || id == 11 || id == 19 || id == 22 || id == 23
    then text_kind
    else if id == 8 || id == 7
    then time_kind
    else if id == 9
    then address_kind
    else if id == 10
    then class_kind
    else if id == 13
    then version_kind
    else if id == 25 || id == 26 || id == 27
    then retrieve_kind
    else other_kind

-- `MMS_VAL_ADDRESS_PRESENT_TOKEN`
abbrev pub address_present_token : ℕ
address_present_token = 128

-- The members of the union. Reading one that was not written is `none`.
abbrev pub item_long_int : ItemValue → Option ℕ
item_long_int (long_int n) = some n
item_long_int _ = none

abbrev pub item_string : ItemValue → Option (Option Block)
item_string (string s) = some s
item_string _ = none

abbrev pub item_encoded_string : ItemValue → Option (ℕ × Option Block)
item_encoded_string (encoded_string charset s) = some (charset, s)
item_encoded_string _ = none

abbrev pub item_time : ItemValue → Option (ℕ × ℕ)
item_time (time rel_abs n) = some (rel_abs, n)
item_time _ = none

abbrev pub item_data : ItemValue → Option (Option MmsContentType)
item_data (data_and_destroy t _) = some t
item_data _ = none

-- The text behind a pointer; `none` if the block ends before a NUL.
abbrev pub text_at : Option Block → Option (Option CString)
text_at none = some none
text_at (some b) = and_then (c_string b) λ s. some (some s)
