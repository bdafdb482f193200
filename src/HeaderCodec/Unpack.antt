-- ===== src/HeaderCodec/Unpack.antt =====
-- `mms_header_unpack_item` of src/mms_header_codec.c. The item, or `none` for NULL.
use broncho_mms.Base.{
  none, some, ◌>>◌, ◌>>=◌, Option, ℕ, and_then, if◌then◌else◌, ◌+◌, pure, ◌%◌, add32, ◌==◌,
}
use broncho_mms.Items.{
  HeaderItem, header_item_time_create, header_item_string_create, header_item_encoded_string_create,
  header_item_long_create, header_item_data_create, content_type_destroy,
}
use broncho_mms.Memory.{Allocator, CString}
use broncho_mms.Names.HeaderValues.{header_get_name_id_pair}
use broncho_mms.Input.State.{
  In, input_buffer_get_string, input_buffer_is_value_length, input_buffer_get_int8,
  input_buffer_is_short_int, input_buffer_is_eof, input_buffer_is_string, input_buffer_push_limit,
  input_buffer_skip_to_limit, input_buffer_pop_limit,
}
use broncho_mms.HeaderCodec.Kinds.{
  header_kind, address_present_token, content_type_kind, long_kind, token_kind, string_kind,
  text_kind, time_kind, address_kind, class_kind, version_kind, retrieve_kind, other_kind,
  HeaderKind,
}
use broncho_mms.Names.Pairs.{id_to_name}
use broncho_mms.ContentType.State.{content_type_create}
use broncho_mms.Names.Tables.{header_id_to_name}
use broncho_mms.Input.Decode.{
  input_buffer_get_value_length, input_buffer_get_short_int, input_buffer_get_encoded_string,
  input_buffer_get_long_int,
}
use broncho_mms.Output.Encode.{uchar}
use broncho_mms.ContentType.Unpack.{content_type_unpack}

-- The item that a creator returns, read at the cursor.
abbrev pub created : Option (Option HeaderItem) → In (Option HeaderItem)
created r i = and_then r λ item. some (item, i)

-- `item->value_desc = desc`: undefined where the item is NULL.
abbrev pub described : Option CString → Option HeaderItem → In (Option HeaderItem)
described desc item i = and_then item λ it. some (some (record it { value_desc = desc }), i)

-- `mms_id_to_name` of the values of a header: none where it has no table.
unfoldable pub value_desc : ℕ → ℕ → Option CString
unfolding header_get_name_id_pair id_to_name
value_desc id value = and_then (header_get_name_id_pair id) λ t. id_to_name t value

-- The item with the place where it began.
abbrev pub placed : ℕ → Option HeaderItem → Option HeaderItem
placed offset item = and_then item λ it. some (record it { offset = offset })

module _ (a : Allocator) where
  unfoldable pub unpack_string : Option CString → In (Option HeaderItem)
  unfolding header_item_string_create
  unpack_string name = do
    str ← input_buffer_get_string
    created (header_item_string_create a name str)

  unfoldable pub unpack_content_type : Option CString → In (Option HeaderItem)
  unfolding content_type_create header_item_data_create
  unpack_content_type name = elim (content_type_create a) [
    | none ↦ pure (header_item_data_create a name none content_type_destroy)
    | some fresh ↦ do
      t ← content_type_unpack fresh
      pure (header_item_data_create a name (some t) content_type_destroy)
  ]

  unfoldable pub unpack_long : Option CString → In (Option HeaderItem)
  unfolding header_item_long_create
  unpack_long name = do n ← input_buffer_get_long_int; pure (header_item_long_create a name n)

  -- A byte that the table of the header's values describes.
  unfoldable pub unpack_token : ℕ → Option CString → In (Option HeaderItem)
  unfolding header_item_long_create value_desc
  unpack_token id name = do
    value ← input_buffer_get_int8
    described (value_desc id value) (header_item_long_create a name value)

  unfoldable pub unpack_text : Option CString → In (Option HeaderItem)
  unfolding header_item_encoded_string_create unpack_string
  unpack_text name = do
    counted ← input_buffer_is_value_length
    if counted
        then (do
          text ← input_buffer_get_encoded_string
          created (header_item_encoded_string_create a name text.0 text.1))
        else unpack_string name

  -- The length is read and not used.
  unfoldable pub unpack_time : Option CString → In (Option HeaderItem)
  unfolding header_item_time_create
  unpack_time name = do
    length ← input_buffer_get_value_length
    rel_abs ← input_buffer_get_int8
    n ← input_buffer_get_long_int
    pure (header_item_time_create a name rel_abs n)

  unfoldable pub unpack_address : Option CString → In (Option HeaderItem)
  unfolding unpack_text header_item_long_create
  unpack_address name = do
    length ← input_buffer_get_value_length
    λ i. input_buffer_push_limit (add32 i.offset length) i
    token ← input_buffer_get_int8
    item ←
        if token == address_present_token
        then unpack_text name
        else pure (header_item_long_create a name token)
    input_buffer_skip_to_limit
    input_buffer_pop_limit
    pure item

  unfoldable pub unpack_class : ℕ → Option CString → In (Option HeaderItem)
  unfolding unpack_token unpack_string
  unpack_class id name = do
    short ← input_buffer_is_short_int
    if short then unpack_token id name else unpack_string name

  -- The cast is to `unsigned char`.
  unfoldable pub unpack_version : Option CString → In (Option HeaderItem)
  unfolding header_item_long_create
  unpack_version name = do
    value ← input_buffer_get_short_int
    pure (header_item_long_create a name (uchar value))

  -- Neither a token nor a text is an `mms_assert`.
  unfoldable pub unpack_retrieve : ℕ → Option CString → In (Option HeaderItem)
  unfolding unpack_token unpack_string
  unpack_retrieve id name = do
    short ← input_buffer_is_short_int
    if short
        then unpack_token id name
        else do text ← input_buffer_is_string; if text then unpack_string name else λ i. none

  -- The `switch`; another id is an `mms_assert`.
  unfoldable pub unpack_kind : HeaderKind → ℕ → Option CString → In (Option HeaderItem)
  unfolding unpack_content_type unpack_long unpack_token unpack_string unpack_text unpack_time
      unpack_address unpack_class unpack_version unpack_retrieve
  unpack_kind kind id name = elim kind [
    | content_type_kind ↦ unpack_content_type name
    | long_kind ↦ unpack_long name
    | token_kind ↦ unpack_token id name
    | string_kind ↦ unpack_string name
    | text_kind ↦ unpack_text name
    | time_kind ↦ unpack_time name
    | address_kind ↦ unpack_address name
    | class_kind ↦ unpack_class id name
    | version_kind ↦ unpack_version name
    | retrieve_kind ↦ unpack_retrieve id name
    | other_kind ↦ λ i. none
  ]

  unfoldable pub unpack_value : ℕ → Option CString → In (Option HeaderItem)
  unfolding header_kind unpack_kind
  unpack_value id name = unpack_kind (header_kind id) id name

  -- A header that is written with its name.
  unfoldable pub unpack_unknown : In (Option HeaderItem)
  unfolding unpack_string
  unpack_unknown = do name ← input_buffer_get_string; unpack_string name

  unfoldable pub unpack_known : In (Option HeaderItem)
  unfolding unpack_value header_id_to_name
  unpack_known i =
      (do
        byte ← input_buffer_get_int8
        λ j.
            let id = (byte + 0x80) % 256 in
            if input_buffer_is_eof j
            then some (none, j)
            else (do item ← unpack_value id (header_id_to_name id); pure (placed i.offset item)) j)
        i

  unfoldable pub header_unpack_item : In (Option HeaderItem)
  unfolding unpack_unknown unpack_known
  header_unpack_item i =
      if input_buffer_is_eof i
      then some (none, i)
      else (do text ← input_buffer_is_string; if text then unpack_unknown else unpack_known) i
