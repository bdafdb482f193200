-- ===== src/Output/Strings.antt =====
-- The string encoders write the formats of Wire.
use broncho_mms.Base.{
  ◌>>◌, ℕ, ◌+◌, ◌%◌, ◌^◌, ◌≤◌, ◌<◌, ◌≡◌, ap, arith, some, List, [], ◌∷◌, ◌++◌, if◌then◌else◌, inl,
  inr, length, ltb, length-append, word_mod, lt-cases, true, lt→ltb, le→ltb, le→leb, append_assoc,
}
use broncho_mms.Memory.{Allocator, IsAllocator, Serves}
use broncho_mms.Output.State.{OutputBuffer}
use broncho_mms.Output.Integers.{
  Fits, get_int_bytes_bounds, put_int8-Appends, put_multi_bytes_int-Appends,
}
use broncho_mms.Output.Valid.{IsValid, Appends, most_room, Appends-eq, Appends-then}
use broncho_mms.Output.Encode.{
  output_buffer_put_encoded_string, get_int_bytes, output_buffer_put_int8, output_buffer_put_string,
  output_buffer_get_charset_bytes, uchar, output_buffer_put_value_length, put_charset,
  output_buffer_put_multi_bytes_int, int_positive,
}
use broncho_mms.Wire.{value_length_bytes, text_bytes, big_endian}
use broncho_mms.Output.Append.{put_data-Appends}
use broncho_mms.Output.Lengths.{put_value_length-Appends}
use broncho_mms.Wire.Sizes.{value_length_size, length-big_endian}

-- What stands before the text of an Encoded-string: the number of bytes to follow, as the code
-- counts them, and the character set.
abbrev pub charset_value : ℕ → List ℕ
charset_value charset =
    if ltb charset 128
    then (charset + 128) ∷ []
    else get_int_bytes charset ∷ big_endian (get_int_bytes charset) charset

abbrev pub encoded_string_bytes : ℕ → List ℕ → List ℕ
encoded_string_bytes charset s =
    value_length_bytes (output_buffer_get_charset_bytes charset + length s + 1)
    ++ (charset_value charset ++ text_bytes s)

charset_value_size : (charset : ℕ) → length (charset_value charset) ≤ 5
charset_value_size charset =
    ground (arith, length-big_endian (get_int_bytes charset) charset, get_int_bytes_bounds charset)

pub charset_bytes_bound : (charset : ℕ) → output_buffer_get_charset_bytes charset ≤ 5
unfolding output_buffer_get_charset_bytes
charset_bytes_bound charset = ground (arith, get_int_bytes_bounds charset)

pub encoded_string_size :
    (charset : ℕ) (s : List ℕ) → length (encoded_string_bytes charset s) ≤ length s + 13
encoded_string_size charset s =
    let count : ℕ = output_buffer_get_charset_bytes charset + length s + 1 in
    omega (
      arith,
      length-append (value_length_bytes count) (charset_value charset ++ text_bytes s),
      length-append (charset_value charset) (text_bytes s),
      length-append s (0 ∷ []),
      value_length_size count,
      charset_value_size charset,
    )

module _ (a : Allocator) (good : IsAllocator a) (serves : Serves a most_room) where
  pub put_string-Appends :
      (o : OutputBuffer) (s : List ℕ)
      → IsValid o
      → Fits o (length s + 1)
      → Appends (output_buffer_put_string a (some s)) o (text_bytes s)
  unfolding output_buffer_put_string
  put_string-Appends o s v fits =
      let size : length (s ++ (0 ∷ [])) ≡ length s + 1 = length-append s (0 ∷ []) in
      put_data-Appends a good serves o (s ++ (0 ∷ [])) v (omega arith) (omega arith)

  charset-Appends :
      (o : OutputBuffer) (charset : ℕ)
      → IsValid o
      → Fits o 6
      → Appends
          (if ltb charset 128 then output_buffer_put_int8 a (uchar (charset + 128)) else (do
            output_buffer_put_value_length a (get_int_bytes charset)
            output_buffer_put_multi_bytes_int a charset))
          o
          (charset_value charset)
  charset-Appends o charset v fits = elim (lt-cases charset 128) [
    | inl small ↦ rw (lt→ltb charset 128 small) (
        Appends-eq (put_int8-Appends a good serves o (uchar (charset + 128)) v (omega arith))
          (ap (λ t. t ∷ []) (omega arith)))
    | inr large ↦
        let few = get_int_bytes_bounds charset in
        let one = le→leb (get_int_bytes charset) 30 (omega arith) in
        let count : Appends (output_buffer_put_value_length a (get_int_bytes charset)) o
            (get_int_bytes charset ∷ []) =
          Appends-eq
            (put_value_length-Appends a good serves o (get_int_bytes charset) v (omega arith)
              (omega arith))
            (rw one) in
        rw (le→ltb charset 128 large) (
          Appends-then count (λ o' p.
            put_multi_bytes_int-Appends a good serves o' charset p.valid
              (omega (arith, p.counts, few))))
  ]

  pub put_encoded_string-Appends :
      (o : OutputBuffer) (s : List ℕ) (charset : ℕ)
      → IsValid o
      → Fits o (length s + 13)
      → 0 < charset
      → charset < 2 ^ 31
      → Appends
          (output_buffer_put_encoded_string a (some s) charset)
          o
          (encoded_string_bytes charset s)
  unfolding output_buffer_put_encoded_string put_charset
  put_encoded_string-Appends o s charset v fits pos h =
      let count : ℕ = output_buffer_get_charset_bytes charset + length s + 1 in
      let few : count ≤ length s + 6 = omega (arith, charset_bytes_bound charset) in
      let wraps : count % word_mod ≡ count = omega arith in
      let positive : int_positive charset ≡ true = ground arith in
      rw positive (
        Appends-eq
          (Appends-then
            (Appends-then
              (put_value_length-Appends a good serves o (count % word_mod) v (omega arith)
                (omega arith))
              (λ o' p.
                charset-Appends o' charset p.valid
                  (omega (arith, p.counts, value_length_size (count % word_mod)))))
            (λ o' p. put_string-Appends o' s p.valid (
              omega (
                arith,
                p.counts,
                length-append (value_length_bytes (count % word_mod)) (charset_value charset),
                value_length_size (count % word_mod),
                charset_value_size charset,
              ))))
          (rw wraps
            (append_assoc (value_length_bytes count) (charset_value charset) (text_bytes s))))
