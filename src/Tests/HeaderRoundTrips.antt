-- ===== src/Tests/HeaderRoundTrips.antt =====
-- Two headers packed into a small buffer, and unpacked.
use broncho_mms.Base.{[], ◌∷◌, some, subst, arith, ◌≡◌, ℕ, sym, refl, true, none}
use broncho_mms.Output.Valid.{contents, most_room}
use broncho_mms.Output.State.{
  OutputBuffer, output_buffer_put_char, output_buffer_put_data, output_buffer_extend, store_data,
  store_char, store, realloc_buffer, result_ok,
}
use broncho_mms.Input.State.{InputBuffer}
use broncho_mms.Items.{HeaderItem, item_of, type_string, type_long_int, string, long_int}
use broncho_mms.HeaderCodec.Pack.{
  header_pack_item, pack_unknown, pack_value, put_item_string, pack_kind, pack_token, put_item_char,
  pack_other,
}
use broncho_mms.Names.Tables.{header_name_to_id}
use broncho_mms.RoundTrip.Headers.{
  ReadBack, header_unpack_item-header_pack_item, header_unpack_item-header_pack_item_unknown,
  header_unpack_item-header_pack_item_retrieve,
}
use broncho_mms.HeaderCodec.Kinds.{header_kind, retrieve_kind}
use broncho_mms.HeaderCodec.Forms.{Written, shows, token_form, words}
use broncho_mms.HeaderCodec.Unpack.{header_unpack_item}
use broncho_mms.Tests.Given.{
  nearly_full, message, supply, supply-IsAllocator, supply-Serves, nearly_full-IsValid,
}
use broncho_mms.Names.Pairs.{codes, name_to_id, same_text}
use broncho_mms.RoundTrip.{Receives, read_up_to}
use broncho_mms.Names.Headers.{mms_headers}
use broncho_mms.Output.Encode.{
  output_buffer_put_int8, int_negative, output_buffer_put_string, output_buffer_put_int,
  output_buffer_put_long_int, octets, put_octets, read_array,
}
use broncho_mms.Memory.{write_bytes, c_string}

-- X-Mms-Priority: High.
abbrev priority : HeaderItem
priority = item_of (codes "X-Mms-Priority") type_long_int (long_int 130)

abbrev priority_written : OutputBuffer
priority_written = record nearly_full {
  buffer = some (65 ∷ 66 ∷ 143 ∷ 130 ∷ 0 ∷ 0 ∷ 0 ∷ 0 ∷ 0 ∷ []);
  data_length = 4;
  length = 9;
}

abbrev priority_received : InputBuffer
priority_received = message (65 ∷ 66 ∷ 143 ∷ 130 ∷ []) 2

priority_Receives : Receives priority_received nearly_full priority_written
unfolding contents
priority_Receives = record {
  tail = [];
  block = refl;
  start = refl;
  reach = omega arith;
  small = omega arith;
}

priority_id : header_name_to_id (codes "X-Mms-Priority") ≡ 15
unfolding header_name_to_id name_to_id same_text mms_headers
priority_id = refl

priority_run : header_pack_item supply priority nearly_full ≡ some (result_ok, priority_written)
unfolding header_pack_item header_name_to_id name_to_id same_text mms_headers pack_value pack_kind
    header_kind pack_token put_item_char output_buffer_put_int8 output_buffer_put_char
    output_buffer_extend store_char store realloc_buffer write_bytes
priority_run = refl

priority-Written :
    Written (header_kind (header_name_to_id priority.name)) priority.type priority.value (130 ∷ [])
unfolding header_kind
priority-Written =
    subst (λ (id : ℕ). Written (header_kind id) type_long_int (long_int 130) (130 ∷ []))
      (sym priority_id) (token_form 130 (omega arith))

header_unpack_item-header_pack_item_example :
    ReadBack
      (header_unpack_item supply priority_received)
      (read_up_to priority_received priority_written)
      2
      priority
header_unpack_item-header_pack_item_example =
    header_unpack_item-header_pack_item supply supply-IsAllocator (supply-Serves most_room)
      nearly_full-IsValid priority (130 ∷ []) (omega (arith, priority_id)) priority-Written
      (omega arith) priority_run priority_Receives

-- A name that the table does not have.
abbrev odd : HeaderItem
odd = item_of (codes "Xy") type_string (string (some (49 ∷ 0 ∷ [])))

abbrev odd_written : OutputBuffer
odd_written = record nearly_full {
  buffer = some (65 ∷ 66 ∷ 88 ∷ 121 ∷ 0 ∷ 49 ∷ 0 ∷ 0 ∷ 0 ∷ 0 ∷ 0 ∷ []);
  data_length = 7;
  length = 11;
}

abbrev odd_received : InputBuffer
odd_received = message (65 ∷ 66 ∷ 88 ∷ 121 ∷ 0 ∷ 49 ∷ 0 ∷ []) 2

odd_Receives : Receives odd_received nearly_full odd_written
unfolding contents
odd_Receives = record {
  tail = [];
  block = refl;
  start = refl;
  reach = omega arith;
  small = omega arith;
}

odd_unknown : int_negative (header_name_to_id (codes "Xy")) ≡ true
unfolding header_name_to_id name_to_id same_text mms_headers
odd_unknown = refl

odd_run : header_pack_item supply odd nearly_full ≡ some (result_ok, odd_written)
unfolding header_pack_item header_name_to_id name_to_id same_text mms_headers pack_unknown
    put_item_string output_buffer_put_string output_buffer_put_data output_buffer_extend store_data
    store realloc_buffer write_bytes c_string
odd_run = refl

header_unpack_item-header_pack_item_unknown_example :
    (item : HeaderItem) × (header_unpack_item supply odd_received
      ≡ some (some item, read_up_to odd_received odd_written))
    × (item.name ≡ codes "Xy")
    × (item.type ≡ type_string)
    × (shows item.value ≡ some (words (49 ∷ [])))
unfolding c_string
header_unpack_item-header_pack_item_unknown_example =
    header_unpack_item-header_pack_item_unknown supply supply-IsAllocator (supply-Serves most_room)
      nearly_full-IsValid 88 (121 ∷ []) (49 ∷ 0 ∷ []) (49 ∷ []) odd_unknown (omega arith)
      (omega arith) (omega arith, (omega arith, tt)) refl (omega arith, tt) (omega arith) odd_run
      odd_Receives

-- X-Mms-Retrieve-Status: Ok.
abbrev status_written : OutputBuffer
status_written = record nearly_full {
  buffer = some (65 ∷ 66 ∷ 153 ∷ 1 ∷ 128 ∷ 0 ∷ 0 ∷ 0 ∷ 0 ∷ []);
  data_length = 5;
  length = 9;
}

abbrev status_received : InputBuffer
status_received = message (65 ∷ 66 ∷ 153 ∷ 1 ∷ 128 ∷ []) 2

status_Receives : Receives status_received nearly_full status_written
unfolding contents
status_Receives = record {
  tail = [];
  block = refl;
  start = refl;
  reach = omega arith;
  small = omega arith;
}

status_id : header_name_to_id (codes "X-Mms-Retrieve-Status") ≡ 25
unfolding header_name_to_id name_to_id same_text mms_headers
status_id = refl

status_kind : header_kind (header_name_to_id (codes "X-Mms-Retrieve-Status")) ≡ retrieve_kind
unfolding header_kind
status_kind = rw status_id refl

status_run :
    header_pack_item supply
      (item_of (codes "X-Mms-Retrieve-Status") type_long_int (long_int 128))
      nearly_full
    ≡ some (result_ok, status_written)
unfolding header_pack_item header_name_to_id name_to_id same_text mms_headers pack_value pack_kind
    header_kind pack_other output_buffer_put_int output_buffer_put_long_int octets put_octets
    output_buffer_put_int8 output_buffer_put_char output_buffer_extend store_char store
    realloc_buffer write_bytes read_array
status_run = refl

header_unpack_item-header_pack_item_retrieve_example :
    header_unpack_item supply status_received ≡ none
header_unpack_item-header_pack_item_retrieve_example =
    header_unpack_item-header_pack_item_retrieve supply supply-IsAllocator (supply-Serves most_room)
      nearly_full-IsValid (codes "X-Mms-Retrieve-Status") 128 (omega (arith, status_id)) status_kind
      (omega arith) (omega arith) (omega arith) status_run status_Receives
