-- ===== src/ContentType/Pack.antt =====
-- `mms_content_type_pack` of src/mms_content_type.c.
use broncho_mms.Base.{none, some, ◌>>◌, ℕ, if◌then◌else◌, ltb, pure}
use broncho_mms.Memory.{Allocator, CString}
use broncho_mms.Output.Temporary.{with_temporary, put_temporary, length_of}
use broncho_mms.ContentType.State.{MmsContentType, content_type_has_params, filled, content_type_nr}
use broncho_mms.Output.Encode.{
  output_buffer_put_short_int, output_buffer_put_string, output_buffer_put_value_length, uchar,
}
use broncho_mms.Output.State.{Out, MmsResult, result_ok}
use broncho_mms.Names.Pairs.{name_to_id}
use broncho_mms.ContentType.Table.{g_content_types}

-- `CONTENT_TYPE_PARAM_...`
abbrev pub param_charset_code : ℕ
param_charset_code = 1

abbrev pub param_name_code : ℕ
param_name_code = 5

abbrev pub param_filename_code : ℕ
param_filename_code = 6

abbrev pub param_type_related_code : ℕ
param_type_related_code = 9

abbrev pub param_start_code : ℕ
param_start_code = 10

module _ (a : Allocator) where
  unfoldable pub pack_media_type : MmsContentType → Out MmsResult
  unfolding output_buffer_put_short_int output_buffer_put_string
  pack_media_type t =
      if ltb t.id content_type_nr
      then output_buffer_put_short_int a (uchar t.id)
      else if filled t.name
      then output_buffer_put_string a (some t.name)
      else λ o. none

  unfoldable pub pack_param_type : MmsContentType → Out MmsResult
  unfolding output_buffer_put_short_int output_buffer_put_string name_to_id g_content_types
  pack_param_type t =
      let id = name_to_id g_content_types t.param_type in
      do
        output_buffer_put_short_int a param_type_related_code
        if ltb id content_type_nr
            then output_buffer_put_short_int a id
            else output_buffer_put_string a (some t.param_type)

  -- A parameter that is a text, if it is there.
  unfoldable pub pack_param : ℕ → CString → Out MmsResult
  unfolding output_buffer_put_short_int output_buffer_put_string
  pack_param code text =
      if filled text
      then (do output_buffer_put_short_int a code; output_buffer_put_string a (some text))
      else pure result_ok

  -- What goes into the temporary buffer.
  unfoldable pub pack_fields : MmsContentType → Out MmsResult
  unfolding pack_media_type pack_param_type pack_param
  pack_fields t = do
    pack_media_type t
    if filled t.param_type then pack_param_type t else pure result_ok
    pack_param param_name_code t.param_name
    pack_param param_filename_code t.param_filename
    pack_param param_start_code t.param_start

  unfoldable pub content_type_pack : MmsContentType → Out MmsResult
  unfolding pack_fields with_temporary put_temporary output_buffer_put_value_length
      output_buffer_put_short_int output_buffer_put_string content_type_has_params
  content_type_pack t =
      if content_type_has_params t
      then with_temporary a 256 (pack_fields t) (λ temp. do
        output_buffer_put_value_length a (length_of temp)
        put_temporary a temp
        pure result_ok)
      else if ltb t.id content_type_nr
      then (do output_buffer_put_short_int a t.id; pure result_ok)
      else (do output_buffer_put_string a (some t.name); pure result_ok)
