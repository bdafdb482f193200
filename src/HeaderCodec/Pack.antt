-- ===== src/HeaderCodec/Pack.antt =====
-- `mms_header_pack_item` of src/mms_header_codec.c. A failed `mms_assert` is `none`.
use broncho_mms.Base.{
  none, some, ◌>>◌, ◌>>=◌, Option, and_then, ℕ, if◌then◌else◌, add32, pure, length, ◌+◌,
}
use broncho_mms.Memory.{Allocator}
use broncho_mms.Output.State.{Out, MmsResult, result_fail, result_ok}
use broncho_mms.Output.Temporary.{with_temporary, put_temporary, length_of}
use broncho_mms.HeaderCodec.Kinds.{
  header_kind, item_time, item_string, item_data, item_long_int, text_at, item_encoded_string,
  address_present_token, content_type_kind, long_kind, token_kind, string_kind, text_kind,
  time_kind, address_kind, class_kind, version_kind, retrieve_kind, other_kind, HeaderKind,
}
use broncho_mms.Output.Encode.{
  output_buffer_put_string, output_buffer_put_long_int, output_buffer_put_int,
  output_buffer_put_value_length, output_buffer_put_encoded_string, output_buffer_put_short_int,
  output_buffer_put_int8, int_negative, uchar,
}
use broncho_mms.ContentType.Pack.{content_type_pack}
use broncho_mms.Names.Tables.{header_name_to_id}
use broncho_mms.Items.{HeaderItem, ItemValue, type_long_int, type_string, type_encoded_string}
use broncho_mms.Output.Transactions.{output_buffer_get_long_int_bytes}

-- A value read from the item; `none` is the wrong member.
abbrev pub reading : {A : Type 0} → Option A → (A → Out MmsResult) → Out MmsResult
reading r use_it o = and_then r λ x. use_it x o

module _ (a : Allocator) where
  unfoldable pub put_item_string : ItemValue → Out MmsResult
  unfolding output_buffer_put_string
  put_item_string v =
      reading (item_string v) λ p. reading (text_at p) λ s. output_buffer_put_string a s

  unfoldable pub put_item_encoded_string : ItemValue → Out MmsResult
  unfolding output_buffer_put_encoded_string
  put_item_encoded_string v =
      reading (item_encoded_string v)
        λ e. reading (text_at e.1) λ s. output_buffer_put_encoded_string a s e.0

  unfoldable pub put_item_char : ItemValue → Out MmsResult
  unfolding output_buffer_put_int8
  put_item_char v = reading (item_long_int v) λ n. output_buffer_put_int8 a (uchar n)

  -- A header that the table does not have.
  unfoldable pub pack_unknown : HeaderItem → Out MmsResult
  unfolding put_item_string output_buffer_put_string
  pack_unknown item = elim item.type [
    | type_string ↦ do
      output_buffer_put_string a (some item.name)
      put_item_string item.value
      pure result_ok
    | _ ↦ λ o. none
  ]

  unfoldable pub pack_content_type : HeaderItem → Out MmsResult
  unfolding content_type_pack
  pack_content_type item =
      reading (item_data item.value)
        λ t. elim t [ none ↦ pure result_fail | some t ↦ content_type_pack a t ]

  unfoldable pub pack_long : HeaderItem → Out MmsResult
  unfolding output_buffer_put_long_int
  pack_long item = elim item.type [
    | type_long_int ↦ reading (item_long_int item.value) λ n. output_buffer_put_long_int a n
    | _ ↦ λ o. none
  ]

  unfoldable pub pack_token : HeaderItem → Out MmsResult
  unfolding put_item_char
  pack_token item = elim item.type [ type_long_int ↦ put_item_char item.value | _ ↦ λ o. none ]

  unfoldable pub pack_string : HeaderItem → Out MmsResult
  unfolding put_item_string
  pack_string item = elim item.type [ type_string ↦ put_item_string item.value | _ ↦ λ o. none ]

  unfoldable pub pack_text : HeaderItem → Out MmsResult
  unfolding put_item_string put_item_encoded_string
  pack_text item = elim item.type [
    | type_string ↦ put_item_string item.value
    | type_encoded_string ↦ put_item_encoded_string item.value
    | _ ↦ λ o. none
  ]

  unfoldable pub pack_time : HeaderItem → Out MmsResult
  unfolding output_buffer_get_long_int_bytes output_buffer_put_value_length output_buffer_put_int8
      output_buffer_put_long_int
  pack_time item = reading (item_time item.value) λ t. do
    bytes ← output_buffer_get_long_int_bytes a t.1
    output_buffer_put_value_length a (add32 bytes 1)
    output_buffer_put_int8 a (uchar t.0)
    output_buffer_put_long_int a t.1

  -- An address that is only a token.
  unfoldable pub pack_address_token : HeaderItem → Out MmsResult
  unfolding output_buffer_put_value_length put_item_char
  pack_address_token item = do output_buffer_put_value_length a 1; put_item_char item.value

  -- `strlen` of a NULL pointer is undefined.
  unfoldable pub pack_address_string : HeaderItem → Out MmsResult
  unfolding output_buffer_put_value_length output_buffer_put_int8 output_buffer_put_string
  pack_address_string item = reading (item_string item.value) λ p. reading (text_at p) λ s.
      reading s λ text. do
        output_buffer_put_value_length a (add32 (length text) 2)
        output_buffer_put_int8 a address_present_token
        output_buffer_put_string a (some text)

  unfoldable pub pack_address_encoded : HeaderItem → Out MmsResult
  unfolding put_item_encoded_string with_temporary put_temporary output_buffer_put_value_length
      output_buffer_put_int8
  pack_address_encoded item = with_temporary a 1024 (put_item_encoded_string item.value) (λ temp. do
    output_buffer_put_value_length a (add32 (length_of temp) 1)
    output_buffer_put_int8 a address_present_token
    put_temporary a temp)

  unfoldable pub pack_address : HeaderItem → Out MmsResult
  unfolding pack_address_token pack_address_string pack_address_encoded
  pack_address item = elim item.type [
    | type_long_int ↦ pack_address_token item
    | type_string ↦ pack_address_string item
    | type_encoded_string ↦ pack_address_encoded item
    | _ ↦ λ o. none
  ]

  unfoldable pub pack_class : HeaderItem → Out MmsResult
  unfolding put_item_string put_item_char
  pack_class item = elim item.type [
    | type_string ↦ put_item_string item.value
    | _ ↦ put_item_char item.value
  ]

  unfoldable pub pack_version : HeaderItem → Out MmsResult
  unfolding output_buffer_put_short_int
  pack_version item = reading (item_long_int item.value) λ n. output_buffer_put_short_int a n

  unfoldable pub pack_other : HeaderItem → Out MmsResult
  unfolding output_buffer_put_int put_item_string
  pack_other item = elim item.type [
    | type_long_int ↦ reading (item_long_int item.value) λ n. output_buffer_put_int a n
    | type_string ↦ put_item_string item.value
    | _ ↦ λ o. none
  ]

  -- The `switch`; the results of the writes are ignored.
  unfoldable pub pack_kind : HeaderKind → HeaderItem → Out MmsResult
  unfolding pack_content_type pack_long pack_token pack_string pack_text pack_time pack_address
      pack_class pack_version pack_other
  pack_kind kind item = elim kind [
    | content_type_kind ↦ pack_content_type item
    | long_kind ↦ pack_long item
    | token_kind ↦ pack_token item
    | string_kind ↦ pack_string item
    | text_kind ↦ pack_text item
    | time_kind ↦ pack_time item
    | address_kind ↦ pack_address item
    | class_kind ↦ pack_class item
    | version_kind ↦ pack_version item
    | retrieve_kind ↦ pack_other item
    | other_kind ↦ pack_other item
  ]

  unfoldable pub pack_value : ℕ → HeaderItem → Out MmsResult
  unfolding header_kind pack_kind
  pack_value id item = pack_kind (header_kind id) item

  unfoldable pub header_pack_item : HeaderItem → Out MmsResult
  unfolding header_name_to_id pack_unknown pack_value output_buffer_put_int8
  header_pack_item item =
      let id = header_name_to_id item.name in
      if int_negative id
      then pack_unknown item
      else do output_buffer_put_int8 a (uchar (id + 0x80)); pack_value id item; pure result_ok
