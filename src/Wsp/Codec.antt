-- ===== src/Wsp/Codec.antt =====
-- WSP headers on the wire, as src/wsp_header_codec.c packs and unpacks them. A failed `mms_assert` is
-- `none`.
use broncho_mms.Memory.{Allocator, CString}
use broncho_mms.Names.Pairs.{name_to_id, id_to_name}
use broncho_mms.Base.{ℕ, if◌then◌else◌, ◌==◌, ◌||◌, Option, some, none, ◌>>=◌, ◌+◌, pure, ◌%◌, ◌>>◌}
use broncho_mms.ContentType.State.{content_type_is_content_type}
use broncho_mms.HeaderCodec.Pack.{put_item_string, pack_unknown, reading}
use broncho_mms.HeaderCodec.Unpack.{unpack_string, unpack_unknown, placed}
use broncho_mms.Wsp.Table.{g_wsp_headers}
use broncho_mms.Input.State.{In, input_buffer_is_eof, input_buffer_is_string, input_buffer_get_int8}
use broncho_mms.Output.Encode.{
  output_buffer_put_short_int, output_buffer_put_long_int, int_negative,
}
use broncho_mms.Items.{header_item_long_create, HeaderItem, type_string, type_long_int}
use broncho_mms.Input.Decode.{input_buffer_get_long_int, input_buffer_get_int}
use broncho_mms.Output.State.{Out, MmsResult, result_ok}
use broncho_mms.HeaderCodec.Kinds.{item_long_int}

unfoldable pub wsp_header_name_to_id : CString → ℕ
unfolding name_to_id g_wsp_headers
wsp_header_name_to_id name = name_to_id g_wsp_headers name

unfoldable pub wsp_header_id_to_name : ℕ → Option CString
unfolding id_to_name g_wsp_headers
wsp_header_id_to_name id = id_to_name g_wsp_headers id

-- The cases of the two `switch` statements.
pub data WspKind : Type 0 where
  wsp_string_kind wsp_date_kind wsp_other_kind : WspKind

unfoldable pub wsp_kind : ℕ → WspKind
wsp_kind id =
    if id == 0x30 || id == 0x0e
    then wsp_string_kind
    else if id == 0x12
    then wsp_date_kind
    else wsp_other_kind

-- `WSP_HEADER_CONTENT_ID`
abbrev pub content_id : ℕ
content_id = 0x40

module _ (a : Allocator) where
  -- A text, or else a number that `number` reads.
  unfoldable pub unpack_text_or : In ℕ → Option CString → In (Option HeaderItem)
  unfolding unpack_string header_item_long_create
  unpack_text_or number name = do
    text ← input_buffer_is_string
    if text then unpack_string a name else do n ← number; pure (header_item_long_create a name n)

  unfoldable pub wsp_unpack_value : ℕ → Option CString → In (Option HeaderItem)
  unfolding wsp_kind unpack_string unpack_text_or
  wsp_unpack_value id name = elim (wsp_kind id) [
    | wsp_string_kind ↦ unpack_string a name
    | wsp_date_kind ↦ unpack_text_or input_buffer_get_long_int name
    | wsp_other_kind ↦ unpack_text_or input_buffer_get_int name
  ]

  unfoldable pub wsp_unpack_known : In (Option HeaderItem)
  unfolding wsp_unpack_value wsp_header_id_to_name
  wsp_unpack_known i =
      (do
        byte ← input_buffer_get_int8
        elim (wsp_header_id_to_name ((byte + 0x80) % 256)) [
          | none ↦ λ j. none
          | some name ↦ do
            item ← wsp_unpack_value ((byte + 0x80) % 256) (some name)
            pure (placed i.offset item)
        ])
        i

  unfoldable pub wsp_header_unpack_item : In (Option HeaderItem)
  unfolding unpack_unknown wsp_unpack_known
  wsp_header_unpack_item i =
      if input_buffer_is_eof i
      then some (none, i)
      else (do text ← input_buffer_is_string; if text then unpack_unknown a else wsp_unpack_known) i

  unfoldable pub wsp_pack_date : HeaderItem → Out MmsResult
  unfolding put_item_string output_buffer_put_long_int
  wsp_pack_date item = elim item.type [
    | type_string ↦ put_item_string a item.value
    | type_long_int ↦ reading (item_long_int item.value) λ n. output_buffer_put_long_int a n
    | _ ↦ pure result_ok
  ]

  unfoldable pub wsp_pack_other : HeaderItem → Out MmsResult
  unfolding put_item_string output_buffer_put_long_int
  wsp_pack_other item = elim item.type [
    | type_string ↦ put_item_string a item.value
    | type_long_int ↦ reading (item_long_int item.value) λ n. output_buffer_put_long_int a n
    | _ ↦ λ o. none
  ]

  unfoldable pub wsp_pack_value : ℕ → HeaderItem → Out MmsResult
  unfolding wsp_kind put_item_string wsp_pack_date wsp_pack_other
  wsp_pack_value id item = elim (wsp_kind id) [
    | wsp_string_kind ↦ put_item_string a item.value
    | wsp_date_kind ↦ wsp_pack_date item
    | wsp_other_kind ↦ wsp_pack_other item
  ]

  -- The results of the writes are ignored.
  unfoldable pub wsp_header_pack_item : HeaderItem → Out MmsResult
  unfolding content_type_is_content_type wsp_header_name_to_id pack_unknown wsp_pack_value
      output_buffer_put_short_int
  wsp_header_pack_item item =
      let id = wsp_header_name_to_id item.name in
      if content_type_is_content_type item.name
      then pure result_ok
      else if int_negative id || id == content_id
      then pack_unknown a item
      else (do output_buffer_put_short_int a id; wsp_pack_value id item; pure result_ok)
