-- ===== src/RoundTrip/EncodedStrings.antt =====
-- Round trips of encoded strings, and the one character set whose length is counted wrong.
use broncho_mms.Base.{
  refl, ℕ, ◌+◌, ◌≡◌, ◌≢◌, arith, length, ◌++◌, List, ◌≤◌, length-append, ◌∷◌, [], ◌<◌, some, ◌^◌,
  ◌-◌, ◌∙◌, ap,
}
use broncho_mms.Output.Encode.{
  output_buffer_get_charset_bytes, get_int_bytes, output_buffer_put_encoded_string,
}
use broncho_mms.Output.Strings.{charset_value, put_encoded_string-Appends, charset_bytes_bound}
use broncho_mms.Wire.{text_bytes, value_length_bytes}
use broncho_mms.Wire.Sizes.{length-big_endian}
use broncho_mms.Memory.{Allocator, IsAllocator, Serves}
use broncho_mms.Output.Valid.{most_room, IsValid, same_end}
use broncho_mms.Output.State.{OutputBuffer, result_ok}
use broncho_mms.Input.State.{InputBuffer, max_limits}
use broncho_mms.Input.Limits.{IsLimited}
use broncho_mms.Memory.Laws.{NoNul}
use broncho_mms.Output.Integers.{Fits}
use broncho_mms.RoundTrip.{Receives, Receives-At}
use broncho_mms.Input.Strings.{Limited, get_encoded_string-At}
use broncho_mms.Input.Decode.{input_buffer_get_encoded_string}

-- The length that the encoder counts, against the bytes that it writes.
counted :
    (c : ℕ) (s : List ℕ)
    → c ≢ 128
    → output_buffer_get_charset_bytes c + length s + 1 ≡ length (charset_value c ++ text_bytes s)
unfolding output_buffer_get_charset_bytes
counted c s ne = ground (
  arith,
  length-append (charset_value c) (text_bytes s),
  length-append s (0 ∷ []),
  length-big_endian (get_int_bytes c) c,
)

miscounted :
    (s : List ℕ)
    → output_buffer_get_charset_bytes 128 + length s + 2
      ≡ length (charset_value 128 ++ text_bytes s)
unfolding output_buffer_get_charset_bytes get_int_bytes
miscounted s = omega (arith, length-append s (0 ∷ []))

charset_value_short : (c : ℕ) → length (charset_value c) ≤ output_buffer_get_charset_bytes c + 1
unfolding output_buffer_get_charset_bytes
charset_value_short c = ground (arith, length-big_endian (get_int_bytes c) c)

module _ (a : Allocator) (good : IsAllocator a) (serves : Serves a most_room) {o o' : OutputBuffer}
    {i : InputBuffer} (v : IsValid o) (l : IsLimited i) (free : i.limit_nr < max_limits)
    (s : List ℕ) (no_nul : NoNul s) (fits : Fits o (length s + 13)) (r : Receives i o o') where
  -- The cursor and the limit after a read by `get_encoded_string` that counts `short` bytes too few.
  get_encoded_string-Limited :
      (c short end : ℕ)
      → end ≡ o'.data_length - short
      → 0 < c
      → c < 2 ^ 31
      → length (charset_value c) < output_buffer_get_charset_bytes c + length s + 1
      → output_buffer_get_charset_bytes c + length s + 1 + short
        ≡ length (charset_value c ++ text_bytes s)
      → output_buffer_put_encoded_string a (some s) c o ≡ some (result_ok, o')
      → Limited i end c s (input_buffer_get_encoded_string i)
  get_encoded_string-Limited c short end e pos small reaches size run =
      let count : ℕ = output_buffer_get_charset_bytes c + length s + 1 in
      let p = same_end (put_encoded_string-Appends a good serves o s c v fits pos small) run in
      let total = length-append (value_length_bytes count) (charset_value c ++ text_bytes s) in
      let (limits, read, same) =
        get_encoded_string-At i count c s l free (omega arith)
          (omega (arith, charset_bytes_bound c)) no_nul reaches (omega arith) (Receives-At v p r) in
      (
        limits,
        read
            ∙ ap (λ t. some ((some s, c), record i { offset = t; limits = limits }))
                (omega (arith, p.counts, r.start, total)),
        same,
      )

  -- After `put_encoded_string` of a text without NUL, with a character set in 1 .. 2^31 - 1 other
  -- than 128, has succeeded on a valid buffer with room, with an allocator that serves every
  -- request up to 3 GiB, `get_encoded_string` on a message received with the cursor where the
  -- writing began and the limit at or behind its end, with fewer than eight limits pushed, returns
  -- the text and the character set, leaves the cursor at the end of what was written and restores
  -- the limit; of the array of limits the slots of the limits that are pushed are as before.
  pub get_encoded_string-put_encoded_string :
      (c : ℕ)
      → 0 < c
      → c < 2 ^ 31
      → c ≢ 128
      → output_buffer_put_encoded_string a (some s) c o ≡ some (result_ok, o')
      → Limited i o'.data_length c s (input_buffer_get_encoded_string i)
  get_encoded_string-put_encoded_string c pos small ne run =
      let size = counted c s ne in
      let text = length-append (charset_value c) (text_bytes s) in
      get_encoded_string-Limited c 0 o'.data_length (omega arith) pos small
        (omega (arith, size, text, length-append s (0 ∷ []))) (omega (arith, size)) run

  -- After `put_encoded_string` of a text without NUL that is not empty, with the character set
  -- 128, has succeeded on a valid buffer with room, with an allocator that serves every request up
  -- to 3 GiB, `get_encoded_string` on a message received with the cursor where the writing began
  -- and the limit at or behind its end, with fewer than eight limits pushed, returns the text and
  -- the character set but leaves the cursor one byte before the end of what was written; of the
  -- array of limits the slots of the limits that are pushed are as before.
  pub get_encoded_string_short :
      0 < length s
      → output_buffer_put_encoded_string a (some s) 128 o ≡ some (result_ok, o')
      → Limited i (o'.data_length - 1) 128 s (input_buffer_get_encoded_string i)
  get_encoded_string_short some_text run =
      let size = miscounted s in
      get_encoded_string-Limited 128 1 (o'.data_length - 1) refl (omega arith) (omega arith)
        (omega (arith, charset_value_short 128)) (omega (arith, size)) run
