-- ===== src/ContentType/Unpack.antt =====
-- `mms_content_type_unpack` of src/mms_content_type.c. The handles are live objects, so the result is
-- always MMS_RESULT_OK: the readers return the content type instead.
use broncho_mms.Base.{
  none, some, ◌>>◌, ◌>>=◌, zero, suc, true, false, ℕ, ltb, pure, if◌then◌else◌, add32, and_then,
  ◌==◌, get_elem?, ◌-◌,
}
use broncho_mms.ContentType.State.{
  MmsContentType, content_type_set_content_type_by_name, content_type_set_content_type_by_id,
  content_type_set_param_type, content_type_set_param_name, content_type_set_param_start,
}
use broncho_mms.Input.State.{
  In, input_buffer_is_short_int, input_buffer_is_string, input_buffer_get_string,
}
use broncho_mms.Input.Decode.{
  input_buffer_get_short_int, input_buffer_get_int, input_buffer_get_value_length,
}
use broncho_mms.ContentType.Table.{g_content_types}
use broncho_mms.ContentType.Pack.{
  param_name_code, param_charset_code, param_type_related_code, param_start_code,
}

unfoldable pub unpack_by_id : MmsContentType → In MmsContentType
unpack_by_id t = do
  id ← input_buffer_get_short_int
  λ i. and_then (content_type_set_content_type_by_id id t) λ r. some (r.1, i)

unfoldable pub unpack_by_name : MmsContentType → In MmsContentType
unpack_by_name t = do
  name ← input_buffer_get_string
  pure (content_type_set_content_type_by_name name t).1

-- Neither a number nor a text is an `mms_assert`.
unfoldable pub unpack_media_type : MmsContentType → In MmsContentType
unpack_media_type t = do
  short ← input_buffer_is_short_int
  if short
      then unpack_by_id t
      else do text ← input_buffer_is_string; if text then unpack_by_name t else λ i. none

-- A number that the table does not have is an `mms_assert`.
unfoldable pub unpack_type_related : MmsContentType → In MmsContentType
unpack_type_related t = do
  short ← input_buffer_is_short_int
  if short
      then (do
        type ← input_buffer_get_short_int
        λ i.
            and_then (get_elem? g_content_types type)
              λ p. some ((content_type_set_param_type (some p.name) t).1, i))
      else (do type ← input_buffer_get_string; pure (content_type_set_param_type type t).1)

-- A parameter that the code does not keep is read over.
unfoldable pub skip_param : MmsContentType → In MmsContentType
skip_param t = do
  text ← input_buffer_is_string
  if text then (do input_buffer_get_string; pure t) else (do input_buffer_get_int; pure t)

unfoldable pub unpack_param : MmsContentType → In MmsContentType
unpack_param t = do
  opt ← input_buffer_get_short_int
  if opt == param_name_code
      then (do name ← input_buffer_get_string; pure (content_type_set_param_name name t).1)
      else if opt == param_charset_code
      then (do input_buffer_get_int; pure t)
      else if opt == param_type_related_code
      then unpack_type_related t
      else if opt == param_start_code
      then (do start ← input_buffer_get_string; pure (content_type_set_param_start start t).1)
      else skip_param t

-- `while (tell(input) < end)` on fuel; `none` when it runs out.
unfoldable pub unpack_params : ℕ → ℕ → MmsContentType → In MmsContentType
unpack_params zero end t i = none
unpack_params (suc fuel) end t i = elim (ltb i.offset end) [
  | true ↦ (do t' ← unpack_param t; unpack_params fuel end t') i
  | false ↦ some (t, i)
]

-- Each round before the limit takes a byte.
unfoldable pub unpack_counted : MmsContentType → In MmsContentType
unpack_counted t = do
  length ← input_buffer_get_value_length
  λ i.
      let end = add32 i.offset length in
      (do t' ← unpack_media_type t; λ j. unpack_params (suc (j.limit - j.offset)) end t' j) i

unfoldable pub content_type_unpack : MmsContentType → In MmsContentType
content_type_unpack t = do
  short ← input_buffer_is_short_int
  if short
      then unpack_by_id t
      else do text ← input_buffer_is_string; if text then unpack_by_name t else unpack_counted t
