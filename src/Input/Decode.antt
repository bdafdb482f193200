-- ===== src/Input/Decode.antt =====
-- The decoders of src/mms_input_buffer.c: integers, value lengths, character sets and encoded
-- strings. `long` and `int` values are 32-bit patterns.
use broncho_mms.Base.{
  ℕ, zero, suc, ◌+◌, ◌-◌, ◌*◌, ◌%◌, ◌^◌, bit_and, bit_or, true, false, Option, none, some, ltb, leb,
  ◌==◌, if◌then◌else◌, pure, ◌>>=◌, ◌>>◌, word_mod, add32,
}
use broncho_mms.Memory.{CString}
use broncho_mms.Input.State.{
  In, input_buffer_get_int8, input_buffer_push_limit, input_buffer_peek_int8,
  input_buffer_is_short_int, input_buffer_is_value_length, input_buffer_get_string,
  input_buffer_skip_to_limit, input_buffer_pop_limit,
}

-- A shift by the width of `int` or more is undefined.
abbrev pub shift_left : ℕ → ℕ → In ℕ
shift_left v n i = if ltb n 32 then some (v * 2 ^ n % word_mod, i) else none

unfoldable pub input_buffer_get_int16 : In ℕ
input_buffer_get_int16 = do
  high ← input_buffer_get_int8
  low ← input_buffer_get_int8
  pure (bit_or (high * 2 ^ 8) low)

unfoldable pub input_buffer_get_int32 : In ℕ
input_buffer_get_int32 = do
  high ← input_buffer_get_int16
  low ← input_buffer_get_int16
  pure (bit_or (high * 2 ^ 16 % word_mod) low)

-- One round of the `do` loop: `result <<= 7; result |= (octet & 0x7f)`.
abbrev pub add_septet : ℕ → ℕ → ℕ
add_septet result octet = bit_or (result * 2 ^ 7 % word_mod) (bit_and octet 0x7f)

-- The loop on fuel; at the end of the input `get_int8` returns 0, which ends it.
unfoldable pub var_int_loop : ℕ → ℕ → In ℕ
var_int_loop zero result i = none
var_int_loop (suc fuel) result i =
    (do
      octet ← input_buffer_get_int8
      elim (bit_and octet 0x80 == 0) [
        | true ↦ pure (add_septet result octet)
        | false ↦ var_int_loop fuel (add_septet result octet)
      ])
      i

-- Each round but the last takes a byte below the limit.
unfoldable pub input_buffer_get_var_int : In ℕ
input_buffer_get_var_int i = var_int_loop (suc (i.limit - i.offset)) 0 i

unfoldable pub multi_bytes_loop : ℕ → ℕ → In ℕ
multi_bytes_loop zero value = pure value
multi_bytes_loop (suc n) value = do
  ch ← input_buffer_get_int8
  multi_bytes_loop n ((value * 2 ^ 8 + ch) % word_mod)

-- `length` is the pattern of an `int`; a negative one fails the test as one above 4 does.
unfoldable pub input_buffer_get_multi_bytes_int : ℕ → In ℕ
input_buffer_get_multi_bytes_int length = if leb length 4 then multi_bytes_loop length 0 else pure 0

unfoldable pub input_buffer_get_short_int : In ℕ
input_buffer_get_short_int = do ch ← input_buffer_get_int8; pure (bit_and ch 0x7f)

-- `ret |= get_int8() << (len * 8)` for `len` from `n - 1` down to 0.
unfoldable pub long_int_loop : ℕ → ℕ → In ℕ
long_int_loop zero ret = pure ret
long_int_loop (suc len) ret = do
  ch ← input_buffer_get_int8
  shifted ← shift_left ch (8 * len)
  long_int_loop len (bit_or ret shifted)

unfoldable pub input_buffer_get_long_int : In ℕ
input_buffer_get_long_int = do len ← input_buffer_get_int8; long_int_loop len 0

unfoldable pub input_buffer_get_int : In ℕ
input_buffer_get_int = do
  short ← input_buffer_is_short_int
  if short then input_buffer_get_short_int else input_buffer_get_long_int

unfoldable pub input_buffer_get_value_length : In ℕ
input_buffer_get_value_length = do
  len ← input_buffer_get_int8
  if len == 31 then input_buffer_get_var_int else pure len

-- The branch of a character set that is given as a count of bytes and a number.
unfoldable pub counted_charset : In ℕ
counted_charset = do length ← input_buffer_get_value_length; input_buffer_get_multi_bytes_int length

unfoldable pub input_buffer_get_charset : In ℕ
input_buffer_get_charset = do
  val ← input_buffer_peek_int8
  if ltb val 32
      then counted_charset
      else if leb 128 val
      then (do c ← input_buffer_get_int8; pure (c - 128))
      else (do input_buffer_get_string; pure 0)

-- The body of the first branch, with the Value-length read. As in the source, the results of
-- `push_limit` and `pop_limit` are ignored.
unfoldable pub get_limited_string : ℕ → In (Option CString × ℕ)
get_limited_string value_length i =
    (do
      input_buffer_push_limit (add32 i.offset value_length)
      charset ← input_buffer_get_charset
      str ← input_buffer_get_string
      input_buffer_skip_to_limit
      input_buffer_pop_limit
      pure (str, charset))
      i

-- The string and the character set.
unfoldable pub input_buffer_get_encoded_string : In (Option CString × ℕ)
input_buffer_get_encoded_string = do
  counted ← input_buffer_is_value_length
  if counted
      then (do value_length ← input_buffer_get_value_length; get_limited_string value_length)
      else (do str ← input_buffer_get_string; pure (str, 0))
