-- ===== src/Items.antt =====
-- The header items of src/mms_type.h and how src/mms_util.c creates them.
use broncho_mms.Base.{
  none, some, ℕ, Option, and_then, if◌then◌else◌, length, ◌<◌, ◌^◌, ◌≡◌, true, arith,
}
use broncho_mms.Memory.{CString, Block, Allocator, IsAllocator, Serves, c_string}
use broncho_mms.Output.Valid.{most_room, most_data}
use broncho_mms.Paths.Copies.{strdup, strdup-Copy}
use broncho_mms.Memory.Laws.{NoNul}
use broncho_mms.Output.Encode.{int_positive}
use broncho_mms.ContentType.State.{MmsContentType}

pub data MmsDataType : Type 0 where
  type_none type_long_int type_string type_encoded_string type_time type_data type_nr : MmsDataType

-- The functions that the program names to destroy what an item points to; `no_destroy` is NULL.
pub data DestroyFunc : Type 0 where
  no_destroy content_type_destroy : DestroyFunc

-- The member of the union that the type selects. The only objects that
-- items point to are content types, which they own.
pub data ItemValue : Type 0 where
  long_int : ℕ → ItemValue
  string : Option Block → ItemValue
  encoded_string : ℕ → Option Block → ItemValue
  time : ℕ → ℕ → ItemValue
  data_and_destroy : Option MmsContentType → DestroyFunc → ItemValue

pub record HeaderItem : Type 0 where
  pub name : CString
  pub type : MmsDataType
  pub value : ItemValue
  pub value_desc : Option CString
  pub offset : ℕ

-- `sizeof(HeaderItem)`: six words.
abbrev pub header_item_size : ℕ
header_item_size = 24

-- The item that `calloc` cleared, with its first members set.
abbrev pub item_of : CString → MmsDataType → ItemValue → HeaderItem
item_of name type value = record {
  name = name;
  type = type;
  value = value;
  value_desc = none;
  offset = 0;
}

module _ (a : Allocator) where
  -- The item, or NULL where there is no memory for it or no name.
  unfoldable pub create_item : Option CString → MmsDataType → ItemValue → Option HeaderItem
  create_item none type value = none
  create_item (some name) type value =
      and_then (a.calloc header_item_size) λ _. some (item_of name type value)

  unfoldable pub header_item_long_create : Option CString → ℕ → Option HeaderItem
  unfolding create_item
  header_item_long_create name value = create_item name type_long_int (long_int value)

  unfoldable pub header_item_time_create : Option CString → ℕ → ℕ → Option HeaderItem
  unfolding create_item
  header_item_time_create name rel_abs value = create_item name type_time (time rel_abs value)

  unfoldable pub header_item_data_create :
      Option CString → Option MmsContentType → DestroyFunc → Option HeaderItem
  unfolding create_item
  header_item_data_create name value destroy =
      create_item name type_data (data_and_destroy value destroy)

  -- The item is created before the copy; `some none` is a NULL result.
  unfoldable pub header_item_string_create :
      Option CString → Option CString → Option (Option HeaderItem)
  unfolding strdup
  header_item_string_create none value = some none
  header_item_string_create (some name) value = elim (a.calloc header_item_size) [
    | none ↦ some none
    | some _ ↦ and_then (strdup a value) λ s. some (some (item_of name type_string (string s)))
  ]

  -- `charset` is the pattern of an `int`.
  unfoldable pub header_item_encoded_string_create :
      Option CString → Option CString → ℕ → Option (Option HeaderItem)
  unfolding strdup
  header_item_encoded_string_create none value charset = some none
  header_item_encoded_string_create (some name) none charset = some none
  header_item_encoded_string_create (some name) (some value) charset =
      if int_positive charset
      then elim (a.calloc header_item_size) [
        | none ↦ some none
        | some _ ↦
            and_then (strdup a (some value))
              λ s. some (some (item_of name type_encoded_string (encoded_string charset s)))
      ]
      else some none

module _ (a : Allocator) (good : IsAllocator a) (serves : Serves a most_room) where
  -- With an allocator that serves every request up to 3 GiB, `header_item_encoded_string_create`
  -- of a name, a text without NUL below 1 GiB and a character set in 1 .. 2^31 - 1 returns an item
  -- of that name and character set whose string is a copy of the text.
  pub header_item_encoded_string_create_lem :
      (name value : CString) (charset : ℕ)
      → NoNul value
      → length value < most_data
      → 0 < charset
      → charset < 2 ^ 31
      → (p : Block) × (header_item_encoded_string_create a (some name) (some value) charset
          ≡ some (some (item_of name type_encoded_string (encoded_string charset (some p)))))
        × (c_string p ≡ some value)
  unfolding header_item_encoded_string_create
  header_item_encoded_string_create_lem name value charset h small pos few =
      let positive : int_positive charset ≡ true = ground arith in
      let (item, served) = serves.calloc_some header_item_size (omega arith) in
      let (p, copied, text) = strdup-Copy a good serves value h small in
      (p, rw (header_item_encoded_string_create, positive) (rw served (rw copied)), text)
