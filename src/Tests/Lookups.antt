-- ===== src/Tests/Lookups.antt =====
-- Lookups of names and numbers.
use broncho_mms.Base.{refl, ◌≡◌, some, ◌↔◌, arith}
use broncho_mms.Names.Tables.{
  charset_name_to_id, charset_id_to_name, charset_id_to_name-charset_name_to_id, g_charsets,
}
use broncho_mms.Names.Pairs.{codes, name_to_id, same_text, unknown, id_to_name}
use broncho_mms.Names.CharsetsFirst.{charsets_first}
use broncho_mms.Names.CharsetsSecond.{charsets_second}
use broncho_mms.Names.HeaderValues.{
  header_get_name_id_pair, header_values_inverse, g_header_id_values, set_table,
}
use broncho_mms.Names.Values.{g_priority_values, g_response_status_values}
use broncho_mms.Names.Vals.{mms_vals}

charset_utf8 : charset_name_to_id (codes "UTF-8") ≡ 106
unfolding charset_name_to_id name_to_id same_text g_charsets charsets_first charsets_second
charset_utf8 = refl

charset_nowhere : charset_name_to_id (codes "utf-8") ≡ unknown
unfolding charset_name_to_id name_to_id same_text g_charsets charsets_first charsets_second
charset_nowhere = refl

charset_id_to_name-charset_name_to_id_example :
    (charset_id_to_name 106 ≡ some (codes "UTF-8")) ↔ (charset_name_to_id (codes "UTF-8") ≡ 106)
charset_id_to_name-charset_name_to_id_example =
    charset_id_to_name-charset_name_to_id 106 (codes "UTF-8") (ground arith)

priority_has_values : header_get_name_id_pair 15 ≡ some g_priority_values
unfolding header_get_name_id_pair g_header_id_values set_table
priority_has_values = refl

header_values_inverse_example :
    (id_to_name g_priority_values 130 ≡ some (codes "High"))
    ↔ (name_to_id g_priority_values (codes "High") ≡ 130)
header_values_inverse_example =
    header_values_inverse 15 130 (codes "High") g_priority_values priority_has_values (ground arith)

-- The response status that the table of values spells with a blank, and the one of MMS_VALS.
denied : id_to_name g_response_status_values 130 ≡ some (codes "Error- service-denied")
unfolding id_to_name g_response_status_values
denied = refl

denied_unblanked : name_to_id mms_vals (codes "Error-service-denied") ≡ 130
unfolding name_to_id same_text mms_vals
denied_unblanked = refl
