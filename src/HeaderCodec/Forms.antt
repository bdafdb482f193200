-- ===== src/HeaderCodec/Forms.antt =====
-- The values that MMS headers have on the wire, by the kind of the header.
use broncho_mms.Base.{
  [], ◌∷◌, none, some, ℕ, Option, List, ◌<◌, ◌^◌, and_then, ◌≡◌, ◌≤◌, length, arith, length-append,
  ◌+◌, ◌++◌,
}
use broncho_mms.Items.{
  ItemValue, MmsDataType, long_int, string, type_long_int, encoded_string, time, data_and_destroy,
  type_string, type_time, type_data, content_type_destroy,
}
use broncho_mms.Memory.{CString, c_string, Block}
use broncho_mms.HeaderCodec.Kinds.{
  HeaderKind, long_kind, token_kind, string_kind, text_kind, class_kind, version_kind, time_kind,
  content_type_kind,
}
use broncho_mms.Wire.{long_int_bytes, text_bytes, short_int_bytes, value_length_bytes}
use broncho_mms.Memory.Laws.{NoNul}
use broncho_mms.ContentType.State.{
  MmsContentType, content_type_nr, content_type_set_content_type_by_id, no_content_type,
}
use broncho_mms.Output.State.{result_ok}

-- What an item's value is, apart from where its text stands in memory.
pub data Shown : Type 0 where
  number : ℕ → Shown
  words : CString → Shown
  moment : ℕ → ℕ → Shown
  media : Option MmsContentType → Shown

unfoldable pub shows : ItemValue → Option Shown
shows (long_int n) = some (number n)
shows (string none) = none
shows (string (some b)) = and_then (c_string b) λ s. some (words s)
shows (encoded_string charset s) = none
shows (time rel_abs n) = some (moment rel_abs n)
shows (data_and_destroy t f) = some (media t)

-- A time: a Value-length, the token and a Long-integer.
abbrev pub time_bytes : ℕ → ℕ → List ℕ
time_bytes rel_abs n =
    value_length_bytes (length (long_int_bytes n) + 1) ++ (rel_abs ∷ long_int_bytes n)

-- `Written kind type value bytes`: in a header of that kind, the value of an item of that type is
-- `bytes`. A text in place of a token or of a counted text must begin like a text.
pub data Written : HeaderKind → MmsDataType → ItemValue → List ℕ → Type 0 where
  long_form : (n : ℕ) → n < 2 ^ 32 → Written long_kind type_long_int (long_int n) (long_int_bytes n)
  token_form : (n : ℕ) → n < 2 ^ 8 → Written token_kind type_long_int (long_int n) (n ∷ [])
  string_form :
      (b : Block) (s : CString)
      → c_string b ≡ some s
      → NoNul s
      → Written string_kind type_string (string (some b)) (text_bytes s)
  text_form :
      (b : Block) (c : ℕ) (s : CString)
      → c_string b ≡ some (c ∷ s)
      → NoNul (c ∷ s)
      → 31 < c
      → Written text_kind type_string (string (some b)) (text_bytes (c ∷ s))
  class_token_form :
      (n : ℕ) → 2 ^ 7 ≤ n → n < 2 ^ 8 → Written class_kind type_long_int (long_int n) (n ∷ [])
  class_text_form :
      (b : Block) (c : ℕ) (s : CString)
      → c_string b ≡ some (c ∷ s)
      → NoNul (c ∷ s)
      → c < 2 ^ 7
      → Written class_kind type_string (string (some b)) (text_bytes (c ∷ s))
  version_form :
      (n : ℕ) → n < 2 ^ 7 → Written version_kind type_long_int (long_int n) (short_int_bytes n)
  time_form :
      (rel_abs n : ℕ)
      → rel_abs < 2 ^ 8
      → n < 2 ^ 32
      → Written time_kind type_time (time rel_abs n) (time_bytes rel_abs n)
  media_form :
      (id : ℕ) (t : MmsContentType)
      → id < content_type_nr
      → content_type_set_content_type_by_id id no_content_type ≡ some (result_ok, t)
      → Written content_type_kind type_data
          (data_and_destroy (some t) content_type_destroy)
          (short_int_bytes id)

pub Written-size :
    {k : HeaderKind} {t : MmsDataType} {x : ItemValue} {bytes : List ℕ}
    → Written k t x bytes
    → 0 < length bytes
Written-size (long_form n h) = omega arith
Written-size (token_form n h) = omega arith
Written-size (string_form b s e h) = omega (arith, length-append s (0 ∷ []))
Written-size (text_form b c s e h first) = omega arith
Written-size (class_token_form n big h) = omega arith
Written-size (class_text_form b c s e h first) = omega arith
Written-size (version_form n h) = omega arith
Written-size (media_form id t h e) = omega arith
Written-size (time_form rel_abs n h h') = omega (
  arith,
  length-append (value_length_bytes (length (long_int_bytes n) + 1)) (rel_abs ∷ long_int_bytes n),
)
