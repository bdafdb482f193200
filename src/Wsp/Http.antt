-- ===== src/Wsp/Http.antt =====
-- HTTP headers as lines of text, as src/wsp_header_codec.c packs and unpacks them.
use broncho_mms.Memory.{Allocator, store_at, CString}
use broncho_mms.Base.{
  ℕ, [], Option, ◌∷◌, if◌then◌else◌, Bool, ◌+◌, ◌==◌, none, suc, some, ◌/◌, false, ◌||◌, leb, ltb,
  ◌&&◌, ◌++◌, ◌%◌, zero, ◌^◌, drop, and_then, ◌-◌, pure, ◌>>=◌, ◌>>◌, length, take,
}
use broncho_mms.Output.Encode.{output_buffer_put_string_without_null, int_negative}
use broncho_mms.Items.{header_item_string_create, HeaderItem, type_string, type_long_int}
use broncho_mms.Input.State.{In, input_buffer_is_eof, input_buffer_get_string_end_with}
use broncho_mms.Output.State.{Out, MmsResult, result_ok}
use broncho_mms.HeaderCodec.Unpack.{created}
use broncho_mms.HeaderCodec.Pack.{reading}
use broncho_mms.HeaderCodec.Kinds.{item_string, text_at, item_long_int}

-- `isspace` in the C locale
abbrev pub is_space : ℕ → Bool
is_space c = c == 32 || (leb 9 c && leb c 13)

-- How many bytes `while(isspace(s[0]) && s[0]) s++` passes.
unfoldable pub leading_spaces : CString → ℕ
leading_spaces [] = 0
leading_spaces (c ∷ s) = let rest = leading_spaces s in if is_space c then 1 + rest else 0

-- The last byte of a text.
unfoldable pub last_byte : CString → Option ℕ
last_byte [] = none
last_byte (c ∷ []) = some c
last_byte (c ∷ d ∷ s) = last_byte (d ∷ s)

-- Whether the text ends in a carriage return.
unfoldable pub ends_in_cr : CString → Bool
unfolding last_byte
ends_in_cr s = elim (last_byte s) [ none ↦ false | some c ↦ c == 13 ]

-- `buffer[position] = 0` in the received message
abbrev pub write_nul : ℕ → In (Unit {0})
write_nul position i =
    and_then (store_at i.buffer position 0) λ b. some (tt, record i { buffer = b })

-- The value that began at `start`, without the spaces before it and the carriage return behind it,
-- which is overwritten in the message.
unfoldable pub trimmed_value : ℕ → CString → In CString
unfolding leading_spaces ends_in_cr store_at
trimmed_value start value =
    let skipped = leading_spaces value in
    let text = drop skipped value in
    if ends_in_cr text
    then (do write_nul (start + skipped + (length text - 1)); pure (take (length text - 1) text))
    else pure text

module _ (a : Allocator) where
  unfoldable pub http_create_item : ℕ → Option CString → Option CString → In (Option HeaderItem)
  unfolding trimmed_value header_item_string_create leading_spaces
  http_create_item start none value = pure none
  http_create_item start (some name) none = pure none
  http_create_item start (some name) (some value) = do
    text ← trimmed_value start value
    created (header_item_string_create a (some (drop (leading_spaces name) name)) (some text))

  unfoldable pub http_unpack_value : Option CString → In (Option HeaderItem)
  unfolding http_create_item
  http_unpack_value name i =
      if input_buffer_is_eof i
      then some (none, i)
      else (do value ← input_buffer_get_string_end_with b'\n'; http_create_item i.offset name value)
          i

  unfoldable pub http_header_unpack_item : In (Option HeaderItem)
  unfolding http_unpack_value
  http_header_unpack_item i =
      if input_buffer_is_eof i
      then some (none, i)
      else (do name ← input_buffer_get_string_end_with b':'; http_unpack_value name) i

-- The decimal digits of a number below `10 ^ n`, highest first, without zeros before them.
unfoldable pub digits_of : ℕ → ℕ → CString
digits_of zero n = []
digits_of (suc k) n =
    let rest = digits_of k (n / 10) in
    if ltb n 10 then (n + b'0') ∷ [] else rest ++ ((n % 10 + b'0') ∷ [])

-- `sprintf(buffer, "%d", n)` for a 32-bit pattern
unfoldable pub decimal : ℕ → CString
unfolding digits_of
decimal n = if int_negative n then b'-' ∷ digits_of 10 (2 ^ 32 - n) else digits_of 10 n

module _ (a : Allocator) where
  unfoldable pub http_pack_value : HeaderItem → Out MmsResult
  unfolding output_buffer_put_string_without_null decimal
  http_pack_value item = elim item.type [
    | type_string ↦ do
      reading (item_string item.value)
          λ p. reading (text_at p) λ s. output_buffer_put_string_without_null a s
      output_buffer_put_string_without_null a (some (b'\r' ∷ b'\n' ∷ []))
    | type_long_int ↦ do
      reading (item_long_int item.value)
          λ n. output_buffer_put_string_without_null a (some (decimal n))
      output_buffer_put_string_without_null a (some (b'\r' ∷ b'\n' ∷ []))
    | _ ↦ pure result_ok
  ]

  unfoldable pub http_header_pack_item : HeaderItem → Out MmsResult
  unfolding output_buffer_put_string_without_null http_pack_value
  http_header_pack_item item = do
    output_buffer_put_string_without_null a (some item.name)
    output_buffer_put_string_without_null a (some (b':' ∷ b' ' ∷ []))
    http_pack_value item
    pure result_ok
