-- ===== src/Names/HeaderValues.antt =====
-- Which header has which table of values, as src/mms_header_codec.c finds it out.
use broncho_mms.Base.{
  refl, zero, suc, [], ◌∷◌, ℕ, List, Option, ◌≡◌, if◌then◌else◌, some, ◌≢◌, Bool, ltb, true, ◌&&◌,
  get_elem?, and_then, subst, none, ◌↔◌, arith, Bool-cases, inr, sym, ◌∙◌, inl, Option-cases, ap,
  replicate,
}
use broncho_mms.Names.Pairs.{NameIdPair, unknown, id_to_name, same_text, name_to_id}
use broncho_mms.Names.Lookup.{
  names_differ, ids_differ, has_name, has_id, name_to_id-id_to_name, id_to_name-name_to_id,
}
use broncho_mms.Memory.{CString}
use broncho_mms.Names.Values.{
  g_message_class_values, g_status_values, g_sender_visibility_values, g_response_status_values,
  g_report_allowed_values, g_read_reply_values, g_priority_values, g_delivery_report_values,
  g_message_type_values,
}

abbrev pub mms_header_nr : ℕ
mms_header_nr = 34

-- `array[i] = table`
unfoldable pub set_table :
    ℕ → List NameIdPair → List (Option (List NameIdPair)) → List (Option (List NameIdPair))
set_table i table [] = []
set_table zero table (t ∷ tables) = some table ∷ tables
set_table (suc i) table (t ∷ tables) = t ∷ set_table i table tables

-- The array after its initialisation; a NULL entry is `none`.
unfoldable pub g_header_id_values : List (Option (List NameIdPair))
unfolding set_table
g_header_id_values = set_table 10 g_message_class_values (
    set_table 21 g_status_values (
      set_table 20 g_sender_visibility_values (
        set_table 18 g_response_status_values (
          set_table 17 g_report_allowed_values (
            set_table 16 g_read_reply_values (
              set_table 15 g_priority_values (
                set_table 6 g_delivery_report_values
                  (set_table 12 g_message_type_values (replicate mms_header_nr none)))))))))

-- `none` is NULL, out of range or for a header without a table. A negative id is a pattern above all.
unfoldable pub header_get_name_id_pair : ℕ → Option (List NameIdPair)
unfolding g_header_id_values
header_get_name_id_pair id =
    if ltb id mms_header_nr then and_then (get_elem? g_header_id_values id) (λ t. t) else none

-- All rows of each table differ.
unfoldable pub tables_differ : List (Option (List NameIdPair)) → Bool
unfolding names_differ ids_differ
tables_differ [] = true
tables_differ (none ∷ tables) = tables_differ tables
tables_differ (some t ∷ tables) = (names_differ t && ids_differ t) && tables_differ tables

header_tables : tables_differ g_header_id_values ≡ true
unfolding tables_differ names_differ ids_differ has_name has_id same_text g_header_id_values
    set_table g_message_class_values g_status_values g_sender_visibility_values
    g_response_status_values g_report_allowed_values g_read_reply_values g_priority_values
    g_delivery_report_values g_message_type_values
header_tables = refl

tables_differ_at :
    (tables : List (Option (List NameIdPair))) (i : ℕ) (t : List NameIdPair)
    → tables_differ tables ≡ true
    → get_elem? tables i ≡ some (some t)
    → (names_differ t ≡ true) × (ids_differ t ≡ true)
unfolding tables_differ
tables_differ_at [] i t d h = absurd (cc)
tables_differ_at (none ∷ tables) zero t d h = absurd (cc)
tables_differ_at (some u ∷ tables) zero t d h =
    let same : u ≡ t = cc in
    subst (λ (x : List NameIdPair). (names_differ x ≡ true) × (ids_differ x ≡ true)) same
      (ground (arith, d), ground (arith, d))
tables_differ_at (none ∷ tables) (suc i) t d h = tables_differ_at tables i t d h
tables_differ_at (some u ∷ tables) (suc i) t d h = tables_differ_at tables i t (ground (arith, d)) h

-- In the table of values that `header_get_name_id_pair` returns for a header, a number other than
-- -1 has a name exactly where that number is found for the name.
pub header_values_inverse :
    (header value : ℕ) (name : CString) (t : List NameIdPair)
    → header_get_name_id_pair header ≡ some t
    → value ≢ unknown
    → (id_to_name t value ≡ some name) ↔ (name_to_id t name ≡ value)
unfolding header_get_name_id_pair
header_values_inverse header value name t h known = elim (Bool-cases (ltb header mms_header_nr)) [
  | inr e ↦ absurd (let impossible : none ≡ some t = sym (rw e refl) ∙ h in cc)
  | inl e ↦
      let held : and_then (get_elem? g_header_id_values header) (λ x. x) ≡ some t =
        sym (rw e refl) ∙ h in
      elim (Option-cases (get_elem? g_header_id_values header)) [
        | inl n ↦ absurd (let impossible : none ≡ some t = sym (rw n refl) ∙ held in cc)
        | inr (x, at) ↦
            let whole : x ≡ some t = sym (rw at refl) ∙ held in
            let differ =
              tables_differ_at g_header_id_values header t header_tables (at ∙ ap some whole) in
            (
              name_to_id-id_to_name t value name differ.0,
              λ k. id_to_name-name_to_id t value name differ.1 k known,
            )
      ]
]
