-- ===== src/Tests/Texts.antt =====
-- Texts written to a small buffer that grows, and read back.
use broncho_mms.Base.{refl, [], ◌∷◌, arith, ◌≡◌, ◌-◌, some}
use broncho_mms.Input.State.{InputBuffer}
use broncho_mms.Output.Encode.{
  output_buffer_put_string, output_buffer_put_encoded_string, put_charset,
  output_buffer_put_value_length, get_int_bytes, output_buffer_get_charset_bytes,
  output_buffer_put_multi_bytes_int, put_bytes_down, output_buffer_put_int8,
}
use broncho_mms.Output.State.{
  OutputBuffer, output_buffer_put_data, store_data, output_buffer_extend, store, realloc_buffer,
  output_buffer_put_char, store_char, result_ok,
}
use broncho_mms.Memory.Laws.{NoNul}
use broncho_mms.Output.Valid.{contents, most_room}
use broncho_mms.Input.Strings.{Limited}
use broncho_mms.Tests.Given.{
  message, nearly_full, supply, supply-IsAllocator, supply-Serves, nearly_full-IsValid,
  message-IsLimited,
}
use broncho_mms.Memory.{write_bytes}
use broncho_mms.RoundTrip.{Receives}
use broncho_mms.Input.Decode.{input_buffer_get_encoded_string}
use broncho_mms.RoundTrip.EncodedStrings.{
  get_encoded_string_short, get_encoded_string-put_encoded_string,
}

hey-NoNul : NoNul (104 ∷ 101 ∷ 121 ∷ [])
hey-NoNul = (omega arith, (omega arith, (omega arith, tt)))

abbrev text_written : OutputBuffer
text_written = record nearly_full {
  buffer = some (
      65 ∷ 66 ∷ 7 ∷ 2 ∷ 3 ∷ 232 ∷ 104 ∷ 101 ∷ 121 ∷ 0 ∷ 0 ∷ 0 ∷ 0 ∷ 0 ∷ 0 ∷ 0 ∷ 0 ∷ 0 ∷ 0 ∷ 0 ∷ 0
      ∷ 0 ∷ []);
  data_length = 10;
  length = 22;
}

abbrev text_received : InputBuffer
text_received = message (65 ∷ 66 ∷ 7 ∷ 2 ∷ 3 ∷ 232 ∷ 104 ∷ 101 ∷ 121 ∷ 0 ∷ []) 2

text_Receives : Receives text_received nearly_full text_written
unfolding contents
text_Receives = record {
  tail = [];
  block = refl;
  start = refl;
  reach = omega arith;
  small = omega arith;
}

text_run :
    output_buffer_put_encoded_string supply (some (104 ∷ 101 ∷ 121 ∷ [])) 1000 nearly_full
    ≡ some (result_ok, text_written)
unfolding output_buffer_put_encoded_string put_charset output_buffer_put_value_length get_int_bytes
    output_buffer_get_charset_bytes output_buffer_put_string output_buffer_put_data store_data
    output_buffer_put_multi_bytes_int put_bytes_down output_buffer_put_int8 output_buffer_put_char
    output_buffer_extend store_char store realloc_buffer write_bytes
text_run = refl

abbrev miscounted_written : OutputBuffer
miscounted_written = record nearly_full {
  buffer = some (
      65 ∷ 66 ∷ 5 ∷ 1 ∷ 128 ∷ 104 ∷ 101 ∷ 121 ∷ 0 ∷ 0 ∷ 0 ∷ 0 ∷ 0 ∷ 0 ∷ 0 ∷ 0 ∷ 0 ∷ 0 ∷ 0 ∷ 0 ∷ 0
      ∷ 0 ∷ []);
  data_length = 9;
  length = 22;
}

abbrev miscounted_received : InputBuffer
miscounted_received = message (65 ∷ 66 ∷ 5 ∷ 1 ∷ 128 ∷ 104 ∷ 101 ∷ 121 ∷ 0 ∷ []) 2

miscounted_Receives : Receives miscounted_received nearly_full miscounted_written
unfolding contents
miscounted_Receives = record {
  tail = [];
  block = refl;
  start = refl;
  reach = omega arith;
  small = omega arith;
}

miscounted_run :
    output_buffer_put_encoded_string supply (some (104 ∷ 101 ∷ 121 ∷ [])) 128 nearly_full
    ≡ some (result_ok, miscounted_written)
unfolding output_buffer_put_encoded_string put_charset output_buffer_put_value_length get_int_bytes
    output_buffer_get_charset_bytes output_buffer_put_string output_buffer_put_data store_data
    output_buffer_put_multi_bytes_int put_bytes_down output_buffer_put_int8 output_buffer_put_char
    output_buffer_extend store_char store realloc_buffer write_bytes
miscounted_run = refl

get_encoded_string-put_encoded_string_example :
    Limited text_received text_written.data_length 1000
      (104 ∷ 101 ∷ 121 ∷ [])
      (input_buffer_get_encoded_string text_received)
get_encoded_string-put_encoded_string_example =
    get_encoded_string-put_encoded_string supply supply-IsAllocator (supply-Serves most_room)
      nearly_full-IsValid (message-IsLimited _ _) (omega arith) (104 ∷ 101 ∷ 121 ∷ []) hey-NoNul
      (omega arith) text_Receives 1000 (omega arith) (omega arith) (ground arith) text_run

get_encoded_string_short_example :
    Limited miscounted_received
      (miscounted_written.data_length - 1)
      128
      (104 ∷ 101 ∷ 121 ∷ [])
      (input_buffer_get_encoded_string miscounted_received)
get_encoded_string_short_example =
    get_encoded_string_short supply supply-IsAllocator (supply-Serves most_room) nearly_full-IsValid
      (message-IsLimited _ _) (omega arith) (104 ∷ 101 ∷ 121 ∷ []) hey-NoNul (omega arith)
      miscounted_Receives (omega arith) miscounted_run
