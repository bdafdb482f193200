-- ===== src/RoundTrip/Values.antt =====
-- Round trips of the integer formats and of strings.
use broncho_mms.Base.{
  refl, suc, [], ◌∷◌, ℕ, ◌<◌, ◌≡◌, some, List, sym, length, ◌^◌, ◌+◌, length-append, arith,
}
use broncho_mms.Memory.{Allocator, IsAllocator, Serves}
use broncho_mms.Output.State.{OutputBuffer, result_ok}
use broncho_mms.Output.Valid.{IsValid, most_room, same_end}
use broncho_mms.Input.State.{InputBuffer, input_buffer_get_int8, input_buffer_get_string}
use broncho_mms.RoundTrip.{Receives, read_up_to, Receives-Reads, Receives-At}
use broncho_mms.Output.Integers.{Fits, put_int8-Appends, put_int16-Appends, put_int32-Appends}
use broncho_mms.Memory.Laws.{NoNul}
use broncho_mms.Output.Encode.{
  output_buffer_put_int8, output_buffer_put_string, output_buffer_put_var_int,
  output_buffer_put_long_int, output_buffer_put_int16, output_buffer_put_int32,
  output_buffer_put_int, output_buffer_put_value_length,
}
use broncho_mms.Input.Decode.{
  input_buffer_get_int32, input_buffer_get_var_int, input_buffer_get_int,
  input_buffer_get_value_length, input_buffer_get_long_int, input_buffer_get_int16,
}
use broncho_mms.Input.Reads.{get_int8-Reads, get_string-At}
use broncho_mms.Output.Strings.{put_string-Appends}
use broncho_mms.Output.Lengths.{
  put_value_length-Appends, put_int-Appends, put_long_int-Appends, put_var_int-Appends,
}
use broncho_mms.Input.Integers.{get_int32-Reads, get_int16-Reads, get_var_int-Reads}
use broncho_mms.Input.Lengths.{get_value_length-Reads, get_int-Reads, get_long_int-Reads}
use broncho_mms.Wire.{octet_count, top_group}
use broncho_mms.Wire.Sizes.{length-groups, length-long_int_bytes}

module _ (a : Allocator) (good : IsAllocator a) (serves : Serves a most_room) {o o' : OutputBuffer}
    {i : InputBuffer} (v : IsValid o) where
  pub get_int8-put_int8 :
      (n : ℕ)
      → Fits o 1
      → output_buffer_put_int8 a n o ≡ some (result_ok, o')
      → Receives i o o'
      → input_buffer_get_int8 i ≡ some (n, read_up_to i o')
  get_int8-put_int8 n fits run r =
      let p = same_end (put_int8-Appends a good serves o n v fits) run in
      Receives-Reads v p r 1 refl (get_int8-Reads (Receives-At v p r))

  -- After `put_int16` of a 16-bit number has succeeded on a valid buffer with room, with an
  -- allocator that serves every request up to 3 GiB, `get_int16` on a message received with the
  -- cursor where the writing began and the limit at or behind its end returns the number and stops
  -- at the end of what was written.
  pub get_int16-put_int16 :
      (n : ℕ)
      → Fits o 2
      → n < 2 ^ 16
      → output_buffer_put_int16 a n o ≡ some (result_ok, o')
      → Receives i o o'
      → input_buffer_get_int16 i ≡ some (n, read_up_to i o')
  get_int16-put_int16 n fits h run r =
      let p = same_end (put_int16-Appends a good serves o n v fits h) run in
      Receives-Reads v p r 2 refl (get_int16-Reads n h (Receives-At v p r))

  -- After `put_int32` of a 32-bit number has succeeded on a valid buffer with room, with an
  -- allocator that serves every request up to 3 GiB, `get_int32` on a message received with the
  -- cursor where the writing began and the limit at or behind its end returns the number and stops
  -- at the end of what was written.
  pub get_int32-put_int32 :
      (n : ℕ)
      → Fits o 4
      → n < 2 ^ 32
      → output_buffer_put_int32 a n o ≡ some (result_ok, o')
      → Receives i o o'
      → input_buffer_get_int32 i ≡ some (n, read_up_to i o')
  get_int32-put_int32 n fits h run r =
      let p = same_end (put_int32-Appends a good serves o n v fits h) run in
      Receives-Reads v p r 4 refl (get_int32-Reads n h (Receives-At v p r))

  -- After `put_var_int` of a 32-bit number has succeeded on a valid buffer with room, with an
  -- allocator that serves every request up to 3 GiB, `get_var_int` on a message received with the
  -- cursor where the writing began and the limit at or behind its end returns the number and stops
  -- at the end of what was written.
  pub get_var_int-put_var_int :
      (n : ℕ)
      → Fits o 5
      → n < 2 ^ 32
      → output_buffer_put_var_int a n o ≡ some (result_ok, o')
      → Receives i o o'
      → input_buffer_get_var_int i ≡ some (n, read_up_to i o')
  get_var_int-put_var_int n fits h run r =
      let p = same_end (put_var_int-Appends a good serves o n v fits h) run in
      Receives-Reads v p r _ (sym (length-groups (top_group n) n))
        (get_var_int-Reads n h (Receives-At v p r))

  -- After `put_long_int` of a 32-bit number has succeeded on a valid buffer with room, with an
  -- allocator that serves every request up to 3 GiB, `get_long_int` on a message received with the
  -- cursor where the writing began and the limit at or behind its end returns the number and stops
  -- at the end of what was written.
  pub get_long_int-put_long_int :
      (n : ℕ)
      → Fits o 5
      → n < 2 ^ 32
      → output_buffer_put_long_int a n o ≡ some (result_ok, o')
      → Receives i o o'
      → input_buffer_get_long_int i ≡ some (n, read_up_to i o')
  get_long_int-put_long_int n fits h run r =
      let p = same_end (put_long_int-Appends a good serves o n v fits h) run in
      Receives-Reads v p r (suc (octet_count n)) (omega (arith, length-long_int_bytes n))
        (get_long_int-Reads n h (Receives-At v p r))

  -- After `put_int` of a 32-bit number, short or long, has succeeded on a valid buffer with room,
  -- with an allocator that serves every request up to 3 GiB, `get_int` on a message received with
  -- the cursor where the writing began and the limit at or behind its end returns the number and
  -- stops at the end of what was written.
  pub get_int-put_int :
      (n : ℕ)
      → Fits o 5
      → n < 2 ^ 32
      → output_buffer_put_int a n o ≡ some (result_ok, o')
      → Receives i o o'
      → input_buffer_get_int i ≡ some (n, read_up_to i o')
  get_int-put_int n fits h run r =
      let p = same_end (put_int-Appends a good serves o n v fits h) run in
      Receives-Reads v p r _ refl (get_int-Reads n h (Receives-At v p r))

  -- After `put_value_length` of a 32-bit number has succeeded on a valid buffer with room, with an
  -- allocator that serves every request up to 3 GiB, `get_value_length` on a message received with
  -- the cursor where the writing began and the limit at or behind its end returns the number and
  -- stops at the end of what was written.
  pub get_value_length-put_value_length :
      (n : ℕ)
      → Fits o 6
      → n < 2 ^ 32
      → output_buffer_put_value_length a n o ≡ some (result_ok, o')
      → Receives i o o'
      → input_buffer_get_value_length i ≡ some (n, read_up_to i o')
  get_value_length-put_value_length n fits h run r =
      let p = same_end (put_value_length-Appends a good serves o n v fits h) run in
      Receives-Reads v p r _ refl (get_value_length-Reads n h (Receives-At v p r))

  -- After `put_string` of a text without NUL has succeeded on a valid buffer with room, with an
  -- allocator that serves every request up to 3 GiB, `get_string` on a message received with the
  -- cursor where the writing began and the limit at or behind its end returns the text and stops
  -- behind its NUL.
  pub get_string-put_string :
      (s : List ℕ)
      → NoNul s
      → Fits o (length s + 1)
      → output_buffer_put_string a (some s) o ≡ some (result_ok, o')
      → Receives i o o'
      → input_buffer_get_string i ≡ some (some s, read_up_to i o')
  get_string-put_string s h fits run r =
      let p = same_end (put_string-Appends a good serves o s v fits) run in
      Receives-Reads v p r (length s + 1) (sym (length-append s (0 ∷ [])))
        (get_string-At s h (Receives-At v p r))
