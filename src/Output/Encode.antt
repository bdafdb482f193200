-- ===== src/Output/Encode.antt =====
-- The encoders of src/mms_output_buffer.c: integers, value lengths and strings.
-- As in the source, the results of the single writes are ignored.
use broncho_mms.Base.{
  ℕ, zero, suc, ◌+◌, ◌*◌, ◌/◌, ◌%◌, ◌^◌, bit_and, bit_or, Bool, ◌&&◌, Option, none, some, List, [],
  ◌∷◌, ◌++◌, ltb, leb, ◌==◌, length, get_elem?, if◌then◌else◌, pure, and_then, ◌>>=◌, ◌>>◌,
  word_mod,
}
use broncho_mms.Memory.{CString, Allocator}
use broncho_mms.Output.State.{
  MmsResult, result_ok, result_fail, Out, output_buffer_put_char, output_buffer_put_data,
}

-- `(unsigned char)`
abbrev pub uchar : ℕ → ℕ
uchar n = n % 256

-- `n > 0` for an `int`
abbrev pub int_positive : ℕ → Bool
int_positive n = ltb 0 n && ltb n (2 ^ 31)

-- `n < 0` for an `int`
abbrev pub int_negative : ℕ → Bool
int_negative n = leb (2 ^ 31) n

-- `bits[i]` of a local array
unfoldable pub read_array : List ℕ → ℕ → Out ℕ
read_array bits i o = and_then (get_elem? bits i) λ b. some (b, o)

unfoldable pub get_int_bytes : ℕ → ℕ
get_int_bytes n =
    if ltb 0xfffff n then 4 else if ltb 0xffff n then 3 else if ltb 0xff n then 2 else 1

unfoldable pub output_buffer_get_charset_bytes : ℕ → ℕ
unfolding get_int_bytes
output_buffer_get_charset_bytes charset = if leb charset 128 then 1 else get_int_bytes charset + 1

-- The first loop of `put_var_int`: groups of seven bits, lowest first.
unfoldable pub septets : ℕ → ℕ → List ℕ
septets zero var = []
septets (suc n) var = uchar (bit_and var 0x7f) ∷ septets n (var / 2 ^ 7)

-- `while (bits[i] == 0) i--`, from `i + 1`; `none` is the read of `bits[-1]`.
unfoldable pub skip_empty : ℕ → List ℕ → Option ℕ
skip_empty zero bits = none
skip_empty (suc i) bits =
    let below = skip_empty i bits in
    and_then (get_elem? bits i) λ b. if b == 0 then below else some i

-- The loop of `put_long_int` over `bits[32]`: octets, lowest first; `none` if they leave the array.
unfoldable pub octets : ℕ → ℕ → Option (List ℕ)
octets zero n = if n == 0 then some [] else none
octets (suc room) n =
    let rest = octets room (n / 2 ^ 8) in
    if n == 0 then some [] else and_then rest λ bs. some (uchar (bit_and n 0xff) ∷ bs)

module _ (a : Allocator) where
  unfoldable pub output_buffer_put_int8 : ℕ → Out MmsResult
  unfolding output_buffer_put_char
  output_buffer_put_int8 n = output_buffer_put_char a n

  unfoldable pub output_buffer_put_int16 : ℕ → Out MmsResult
  unfolding output_buffer_put_int8
  output_buffer_put_int16 n = do
    output_buffer_put_int8 (uchar (bit_and (n / 2 ^ 8) 0xff))
    output_buffer_put_int8 (uchar (bit_and n 0xff))

  unfoldable pub output_buffer_put_int32 : ℕ → Out MmsResult
  unfolding output_buffer_put_int16
  output_buffer_put_int32 n = do
    output_buffer_put_int16 (bit_and (n / 2 ^ 16) 0xffff)
    output_buffer_put_int16 (bit_and n 0xffff)

  -- The bytes of `value` from byte `n - 1` down to byte 0.
  unfoldable pub put_bytes_down : ℕ → ℕ → Out MmsResult
  unfolding output_buffer_put_int8
  put_bytes_down zero value = pure result_ok
  put_bytes_down (suc i) value = do
    output_buffer_put_int8 (bit_and (value / 2 ^ (8 * i)) 0xff)
    put_bytes_down i value

  unfoldable pub output_buffer_put_multi_bytes_int : ℕ → Out MmsResult
  unfolding put_bytes_down get_int_bytes
  output_buffer_put_multi_bytes_int value = put_bytes_down (get_int_bytes value) value

  -- The groups from `i` down to 1 with the top bit set, then group 0 without.
  unfoldable pub put_septets : ℕ → List ℕ → Out MmsResult
  unfolding output_buffer_put_int8 read_array
  put_septets zero bits = do b ← read_array bits 0; output_buffer_put_int8 (uchar (bit_and b 0x7f))
  put_septets (suc i) bits = do
    b ← read_array bits (suc i)
    output_buffer_put_int8 (uchar (bit_or 0x80 b))
    put_septets i bits

  unfoldable pub output_buffer_put_var_int : ℕ → Out MmsResult
  unfolding put_septets output_buffer_put_int8
  output_buffer_put_var_int var =
      if var == 0 then (do output_buffer_put_int8 0; pure result_ok) else λ o.
      let bits = septets 8 var in
      and_then (skip_empty 8 bits) λ i. (do put_septets i bits; pure result_ok) o

  unfoldable pub output_buffer_put_short_int : ℕ → Out MmsResult
  unfolding output_buffer_put_int8
  output_buffer_put_short_int n = output_buffer_put_int8 (uchar (bit_or n 0x80))

  -- `for (; len > 0; len--) put_int8(bits[len - 1])`
  unfoldable pub put_octets : ℕ → List ℕ → Out MmsResult
  unfolding output_buffer_put_int8 read_array
  put_octets zero bits = pure result_ok
  put_octets (suc n) bits = do b ← read_array bits n; output_buffer_put_int8 b; put_octets n bits

  unfoldable pub output_buffer_put_long_int : ℕ → Out MmsResult
  unfolding put_octets output_buffer_put_int8
  output_buffer_put_long_int n =
      if n == 0
      then (do output_buffer_put_int8 0x01; output_buffer_put_int8 0x00; pure result_ok)
      else λ o. and_then (octets 32 n) λ bits.
        (do
          output_buffer_put_int8 (uchar (length bits))
          put_octets (length bits) bits
          pure result_ok)
          o

  unfoldable pub output_buffer_put_int : ℕ → Out MmsResult
  unfolding output_buffer_put_short_int output_buffer_put_long_int
  output_buffer_put_int n =
      if leb n 0x7f then output_buffer_put_short_int n else output_buffer_put_long_int n

  unfoldable pub output_buffer_put_value_length : ℕ → Out MmsResult
  unfolding output_buffer_put_int8 output_buffer_put_var_int
  output_buffer_put_value_length n =
      if leb n 30
      then (do output_buffer_put_int8 (uchar (bit_and n 0xff)); pure result_ok)
      else (do output_buffer_put_int8 31; output_buffer_put_var_int n; pure result_ok)

  -- `none` is a NULL string.
  unfoldable pub output_buffer_put_string : Option CString → Out MmsResult
  unfolding output_buffer_put_data
  output_buffer_put_string none = pure result_fail
  output_buffer_put_string (some s) = output_buffer_put_data a (some (s ++ (0 ∷ [])))

  unfoldable pub output_buffer_put_string_without_null : Option CString → Out MmsResult
  unfolding output_buffer_put_data
  output_buffer_put_string_without_null none = pure result_fail
  output_buffer_put_string_without_null (some s) = output_buffer_put_data a (some s)

  -- What `put_encoded_string` writes before the string.
  unfoldable pub put_charset : ℕ → CString → Out MmsResult
  unfolding output_buffer_put_value_length output_buffer_put_multi_bytes_int
      output_buffer_get_charset_bytes
  put_charset charset s = do
    output_buffer_put_value_length
        ((output_buffer_get_charset_bytes charset + length s + 1) % word_mod)
    if ltb charset 128 then output_buffer_put_int8 (uchar (charset + 128)) else do
      output_buffer_put_value_length (get_int_bytes charset)
      output_buffer_put_multi_bytes_int charset

  unfoldable pub output_buffer_put_encoded_string : Option CString → ℕ → Out MmsResult
  output_buffer_put_encoded_string none charset = pure result_fail
  output_buffer_put_encoded_string (some s) charset =
      if int_positive charset
      then (do put_charset charset s; output_buffer_put_string (some s))
      else output_buffer_put_string (some s)
