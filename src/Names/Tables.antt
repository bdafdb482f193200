-- ===== src/Names/Tables.antt =====
-- The lookups of src/mms_charset.c and those for header names of src/mms_header_codec.c.
use broncho_mms.Base.{refl, List, ℕ, Option, ◌≡◌, ◌++◌, true, ◌≢◌, some, ◌↔◌}
use broncho_mms.Names.Lookup.{
  names_differ, ids_differ, has_name, has_id, name_to_id-id_to_name, id_to_name-name_to_id,
}
use broncho_mms.Names.Pairs.{id_to_name, NameIdPair, name_to_id, same_text, unknown}
use broncho_mms.Names.CharsetsFirst.{charsets_first}
use broncho_mms.Memory.{CString}
use broncho_mms.Names.Headers.{mms_headers}
use broncho_mms.Names.CharsetsSecond.{charsets_second}

unfoldable pub g_charsets : List NameIdPair
g_charsets = charsets_first ++ charsets_second

unfoldable pub charset_name_to_id : CString → ℕ
unfolding name_to_id g_charsets
charset_name_to_id name = name_to_id g_charsets name

unfoldable pub charset_id_to_name : ℕ → Option CString
unfolding id_to_name g_charsets
charset_id_to_name id = id_to_name g_charsets id

unfoldable pub header_name_to_id : CString → ℕ
unfolding name_to_id mms_headers
header_name_to_id name = name_to_id mms_headers name

unfoldable pub header_id_to_name : ℕ → Option CString
unfolding id_to_name mms_headers
header_id_to_name id = id_to_name mms_headers id

headers_names : names_differ mms_headers ≡ true
unfolding names_differ has_name same_text mms_headers
headers_names = refl

headers_ids : ids_differ mms_headers ≡ true
unfolding ids_differ has_id mms_headers
headers_ids = refl

charsets_ids : ids_differ g_charsets ≡ true
unfolding ids_differ has_id charsets_first charsets_second g_charsets
charsets_ids = refl

charsets_names : names_differ g_charsets ≡ true
unfolding names_differ has_name same_text charsets_first charsets_second g_charsets
charsets_names = refl

-- A number other than -1 has a name in the table of character sets exactly where
-- `charset_name_to_id` finds that number for the name.
pub charset_id_to_name-charset_name_to_id :
    (id : ℕ) (name : CString)
    → id ≢ unknown
    → (charset_id_to_name id ≡ some name) ↔ (charset_name_to_id name ≡ id)
unfolding charset_id_to_name charset_name_to_id
charset_id_to_name-charset_name_to_id id name known = (
  name_to_id-id_to_name g_charsets id name charsets_names,
  λ h. id_to_name-name_to_id g_charsets id name charsets_ids h known,
)

-- A number other than -1 has a name in the table of MMS headers exactly where `header_name_to_id`
-- finds that number for the name.
pub header_id_to_name-header_name_to_id :
    (id : ℕ) (name : CString)
    → id ≢ unknown
    → (header_id_to_name id ≡ some name) ↔ (header_name_to_id name ≡ id)
unfolding header_id_to_name header_name_to_id
header_id_to_name-header_name_to_id id name known = (
  name_to_id-id_to_name mms_headers id name headers_names,
  λ h. id_to_name-name_to_id mms_headers id name headers_ids h known,
)
