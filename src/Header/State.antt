-- ===== src/Header/State.antt =====
-- The state and the readers of src/mms_header.c. The list of items is the data it holds, and the
-- calls of src/mms_list.c are those of Linked/Spec. `none` is undefined behaviour, `some none` NULL.
use broncho_mms.Base.{
  [], ◌∷◌, none, some, List, ℕ, Option, Bool, if◌then◌else◌, leb, ◌&&◌, ◌+◌, and_then, false, ◌==◌,
}
use broncho_mms.Names.Pairs.{same_text, codes}
use broncho_mms.Memory.{CString, Allocator, Block}
use broncho_mms.Items.{
  MmsDataType, HeaderItem, type_long_int, ItemValue, type_time, type_none, type_encoded_string,
  type_string, type_data, type_nr,
}
use broncho_mms.ContentType.State.{MmsContentType}
use broncho_mms.Linked.Spec.{find_first}
use broncho_mms.HeaderCodec.Kinds.{
  item_long_int, item_string, item_encoded_string, item_time, item_data,
}
use broncho_mms.Linked.Calls.{node_size}

-- The items; an item that could not be created is NULL in the list.
abbrev pub Items : Type 0
Items = List (Option HeaderItem)

-- `items` is NULL where the list could not be created.
pub record MmsHeader : Type 0 where
  pub items : Option Items
  pub unpack_end_at_content_type : Bool

-- `sizeof(MmsHeader)`: six words.
abbrev pub header_size : ℕ
header_size = 24

-- `tolower` in the C locale.
unfoldable pub lower : ℕ → ℕ
lower c = if leb 0x41 c && leb c 0x5a then c + 0x20 else c

unfoldable pub lowered : CString → CString
unfolding lower
lowered [] = []
lowered (c ∷ s) = lower c ∷ lowered s

-- `strcasecmp(s, t) == 0`
unfoldable pub same_name : CString → CString → Bool
unfolding lowered same_text
same_name s t = same_text (lowered s) (lowered t)

-- Whether `mms_header_compare_by_name` returns 0; it reads the item's name.
unfoldable pub header_compare_by_name : CString → Option HeaderItem → Option Bool
unfolding same_name
header_compare_by_name name item = and_then item λ it. some (same_name it.name name)

-- The number of an enumerator.
abbrev pub type_code : MmsDataType → ℕ
type_code type_none = 0
type_code type_long_int = 1
type_code type_string = 2
type_code type_encoded_string = 3
type_code type_time = 4
type_code type_data = 5
type_code type_nr = 6

-- A new list for the items.
abbrev pub no_items : Allocator → Option Items
no_items a = and_then (a.calloc node_size) λ _. some []

unfoldable pub header_create : Allocator → Option MmsHeader
header_create a =
    and_then (a.calloc header_size)
      λ _. some (record { items = no_items a; unpack_end_at_content_type = false })

unfoldable pub header_set_unpack_end_at_content_type : Bool → MmsHeader → MmsHeader
header_set_unpack_end_at_content_type b h = record h { unpack_end_at_content_type = b }

-- `mms_list_find` by name, on a list that may be NULL.
unfoldable pub find_item : CString → Option Items → Option (Option HeaderItem)
unfolding find_first header_compare_by_name
find_item name none = some none
find_item name (some items) =
    and_then (find_first (header_compare_by_name name) items) λ r. some (and_then r λ item. item)

-- The item found, if it has the type.
unfoldable pub find_typed : MmsDataType → CString → Option Items → Option (Option HeaderItem)
unfolding find_item
find_typed t name items =
    and_then (find_item name items)
      λ r. some (and_then r λ it. if type_code it.type == type_code t then some it else none)

-- A reader: what it makes of the item, or what it returns without one.
abbrev pub read_item :
    {A : Type 0} → Option (Option HeaderItem) → A → (ItemValue → Option A) → Option A
read_item r missing f = and_then r λ item. elim item [ none ↦ some missing | some it ↦ f it.value ]

unfoldable pub header_get_string : CString → MmsHeader → Option (Option Block)
unfolding find_typed
header_get_string name h = read_item (find_typed type_string name h.items) none item_string

-- The string, and the character set where it is written.
unfoldable pub header_get_encoded_string : CString → MmsHeader → Option (Option (ℕ × Option Block))
unfolding find_typed
header_get_encoded_string name h =
    read_item (find_typed type_encoded_string name h.items) none
      (λ v. and_then (item_encoded_string v) λ e. some (some e))

unfoldable pub header_get_long : CString → MmsHeader → Option ℕ
unfolding find_typed
header_get_long name h = read_item (find_typed type_long_int name h.items) 0 item_long_int

-- `MMS_VAL_ABSOLUTE_TOKEN` and `MMS_VAL_RELATIVE_TOKEN`
abbrev pub absolute_token : ℕ
absolute_token = 128

abbrev pub relative_token : ℕ
relative_token = 129

-- The time, and whether it is relative where that is written.
unfoldable pub header_get_time : CString → MmsHeader → Option (ℕ × Option Bool)
unfolding find_typed
header_get_time name h =
    read_item (find_typed type_time name h.items) (0, none)
      (λ v. and_then (item_time v) λ t. some (t.1, some (t.0 == relative_token)))

-- The type of the item is not tested.
unfoldable pub header_get_content_type : MmsHeader → Option (Option MmsContentType)
unfolding find_item
header_get_content_type h = read_item (find_item (codes "Content-Type") h.items) none item_data

unfoldable pub header_get_item_type : CString → MmsHeader → Option MmsDataType
unfolding find_item
header_get_item_type name h =
    and_then (find_item name h.items) λ r. elim r [ none ↦ some type_none | some it ↦ some it.type ]
