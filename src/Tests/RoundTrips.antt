-- ===== src/Tests/RoundTrips.antt =====
-- Numbers written to a small buffer that grows, and read back.
use broncho_mms.Base.{refl, [], ◌∷◌, ◌≡◌, some, arith}
use broncho_mms.Output.Encode.{
  output_buffer_put_long_int, output_buffer_put_value_length, output_buffer_put_int,
  output_buffer_put_var_int, octets, output_buffer_put_int8, septets, skip_empty, put_octets,
  put_septets, read_array,
}
use broncho_mms.Input.Decode.{
  input_buffer_get_var_int, input_buffer_get_int, input_buffer_get_long_int,
  input_buffer_get_value_length,
}
use broncho_mms.Output.State.{
  OutputBuffer, output_buffer_put_char, output_buffer_extend, store_char, store, realloc_buffer,
  result_ok,
}
use broncho_mms.Output.Valid.{contents, most_room}
use broncho_mms.Input.State.{InputBuffer}
use broncho_mms.Tests.Given.{
  message, nearly_full, supply, supply-IsAllocator, supply-Serves, nearly_full-IsValid,
}
use broncho_mms.Memory.{write_bytes}
use broncho_mms.RoundTrip.{Receives, read_up_to}
use broncho_mms.RoundTrip.Values.{
  get_value_length-put_value_length, get_long_int-put_long_int, get_int-put_int,
  get_var_int-put_var_int,
}

abbrev var_int_written : OutputBuffer
var_int_written = record nearly_full {
  buffer = some (65 ∷ 66 ∷ 146 ∷ 167 ∷ 96 ∷ 0 ∷ 0 ∷ 0 ∷ 0 ∷ []);
  data_length = 5;
  length = 9;
}

abbrev var_int_received : InputBuffer
var_int_received = message (65 ∷ 66 ∷ 146 ∷ 167 ∷ 96 ∷ []) 2

var_int_Receives : Receives var_int_received nearly_full var_int_written
unfolding contents
var_int_Receives = record {
  tail = [];
  block = refl;
  start = refl;
  reach = omega arith;
  small = omega arith;
}

var_int_run :
    output_buffer_put_var_int supply 300000 nearly_full ≡ some (result_ok, var_int_written)
unfolding output_buffer_put_var_int septets skip_empty put_septets read_array output_buffer_put_int8
    output_buffer_put_char output_buffer_extend store_char store realloc_buffer write_bytes
var_int_run = refl

get_var_int-put_var_int_example :
    input_buffer_get_var_int var_int_received
    ≡ some (300000, read_up_to var_int_received var_int_written)
get_var_int-put_var_int_example =
    get_var_int-put_var_int supply supply-IsAllocator (supply-Serves most_room) nearly_full-IsValid
      300000 (omega arith) (omega arith) var_int_run var_int_Receives

abbrev long_int_written : OutputBuffer
long_int_written = record nearly_full {
  buffer = some (65 ∷ 66 ∷ 4 ∷ 178 ∷ 208 ∷ 94 ∷ 0 ∷ 0 ∷ 0 ∷ []);
  data_length = 7;
  length = 9;
}

abbrev long_int_received : InputBuffer
long_int_received = message (65 ∷ 66 ∷ 4 ∷ 178 ∷ 208 ∷ 94 ∷ 0 ∷ []) 2

long_int_Receives : Receives long_int_received nearly_full long_int_written
unfolding contents
long_int_Receives = record {
  tail = [];
  block = refl;
  start = refl;
  reach = omega arith;
  small = omega arith;
}

long_int_run :
    output_buffer_put_long_int supply 3000000000 nearly_full ≡ some (result_ok, long_int_written)
unfolding output_buffer_put_long_int octets put_octets read_array output_buffer_put_int8
    output_buffer_put_char output_buffer_extend store_char store realloc_buffer write_bytes
long_int_run = refl

get_long_int-put_long_int_example :
    input_buffer_get_long_int long_int_received
    ≡ some (3000000000, read_up_to long_int_received long_int_written)
get_long_int-put_long_int_example =
    get_long_int-put_long_int supply supply-IsAllocator (supply-Serves most_room)
      nearly_full-IsValid 3000000000 (omega arith) (omega arith) long_int_run long_int_Receives

abbrev int_written : OutputBuffer
int_written = record nearly_full {
  buffer = some (65 ∷ 66 ∷ 3 ∷ 1 ∷ 17 ∷ 112 ∷ 0 ∷ 0 ∷ 0 ∷ []);
  data_length = 6;
  length = 9;
}

abbrev int_received : InputBuffer
int_received = message (65 ∷ 66 ∷ 3 ∷ 1 ∷ 17 ∷ 112 ∷ []) 2

int_Receives : Receives int_received nearly_full int_written
unfolding contents
int_Receives = record {
  tail = [];
  block = refl;
  start = refl;
  reach = omega arith;
  small = omega arith;
}

int_run : output_buffer_put_int supply 70000 nearly_full ≡ some (result_ok, int_written)
unfolding output_buffer_put_int output_buffer_put_long_int octets put_octets read_array
    output_buffer_put_int8 output_buffer_put_char output_buffer_extend store_char store
    realloc_buffer write_bytes
int_run = refl

get_int-put_int_example :
    input_buffer_get_int int_received ≡ some (70000, read_up_to int_received int_written)
get_int-put_int_example =
    get_int-put_int supply supply-IsAllocator (supply-Serves most_room) nearly_full-IsValid 70000
      (omega arith) (omega arith) int_run int_Receives

abbrev value_length_written : OutputBuffer
value_length_written = record nearly_full {
  buffer = some (65 ∷ 66 ∷ 31 ∷ 135 ∷ 104 ∷ 0 ∷ 0 ∷ 0 ∷ 0 ∷ []);
  data_length = 5;
  length = 9;
}

abbrev value_length_received : InputBuffer
value_length_received = message (65 ∷ 66 ∷ 31 ∷ 135 ∷ 104 ∷ []) 2

value_length_Receives : Receives value_length_received nearly_full value_length_written
unfolding contents
value_length_Receives = record {
  tail = [];
  block = refl;
  start = refl;
  reach = omega arith;
  small = omega arith;
}

value_length_run :
    output_buffer_put_value_length supply 1000 nearly_full ≡ some (result_ok, value_length_written)
unfolding output_buffer_put_value_length output_buffer_put_var_int septets skip_empty put_septets
    read_array output_buffer_put_int8 output_buffer_put_char output_buffer_extend store_char store
    realloc_buffer write_bytes
value_length_run = refl

get_value_length-put_value_length_example :
    input_buffer_get_value_length value_length_received
    ≡ some (1000, read_up_to value_length_received value_length_written)
get_value_length-put_value_length_example =
    get_value_length-put_value_length supply supply-IsAllocator (supply-Serves most_room)
      nearly_full-IsValid 1000 (omega arith) (omega arith) value_length_run value_length_Receives
