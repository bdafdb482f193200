-- ===== src/Header/Setters.antt =====
-- The writers of src/mms_header.c. They return what became of the header; the result is
-- MMS_RESULT_OK behind the guards.
use broncho_mms.Base.{
  [], ◌∷◌, none, some, Option, and_then, Bool, ℕ, if◌then◌else◌, true, ◌++◌, false,
}
use broncho_mms.Header.State.{
  header_compare_by_name, MmsHeader, find_typed, Items, relative_token, absolute_token,
}
use broncho_mms.Linked.Spec.{remove_first}
use broncho_mms.Memory.{Allocator, CString}
use broncho_mms.Items.{
  header_item_data_create, header_item_long_create, MmsDataType, HeaderItem,
  header_item_time_create, header_item_string_create, header_item_encoded_string_create,
  type_long_int, type_string, long_int, string, type_time, time, type_encoded_string,
  encoded_string, content_type_destroy,
}
use broncho_mms.Output.State.{MmsResult, result_fail, result_ok}
use broncho_mms.Paths.Copies.{strdup}
use broncho_mms.ContentType.State.{MmsContentType}
use broncho_mms.Linked.Calls.{node_size}
use broncho_mms.Output.Encode.{int_positive}
use broncho_mms.Names.Pairs.{codes}

-- The item that `mms_list_find` returned, changed in place.
unfoldable pub change_first : CString → (HeaderItem → Option HeaderItem) → Items → Option Items
unfolding header_compare_by_name
change_first name f [] = some []
change_first name f (item ∷ items) = and_then (header_compare_by_name name item) λ b. elim b [
  | true ↦ and_then item λ it. and_then (f it) λ it'. some (some it' ∷ items)
  | false ↦ and_then (change_first name f items) λ rest. some (item ∷ rest)
]

unfoldable pub erase_item : CString → Option Items → Option (Option Items)
unfolding remove_first header_compare_by_name
erase_item name none = some none
erase_item name (some items) =
    and_then (remove_first (header_compare_by_name name) items) λ r. some (some r.1)

-- The call behind its guards.
abbrev pub stored : MmsHeader → Option (Option Items) → Option (MmsResult × MmsHeader)
stored h r = and_then r λ items. some (result_ok, record h { items = items })

unfoldable pub header_erase : Option CString → MmsHeader → Option (MmsResult × MmsHeader)
unfolding erase_item
header_erase none h = some (result_fail, h)
header_erase (some name) h = stored h (erase_item name h.items)

module _ (a : Allocator) where
  -- `mms_list_append`, whose result is ignored.
  unfoldable pub append_item : Option HeaderItem → Option Items → Option Items
  append_item item none = none
  append_item item (some items) = elim (a.calloc node_size) [
    | none ↦ some items
    | some _ ↦ some (items ++ (item ∷ []))
  ]

  -- The two ways of a setter: the item found has the type and is changed, or what has the name is
  -- erased and a new item is appended.
  unfoldable pub put_item :
      MmsDataType
      → (HeaderItem → Option HeaderItem)
      → Option (Option HeaderItem)
      → CString
      → Option Items
      → Option (Option Items)
  unfolding find_typed change_first erase_item append_item
  put_item t store fresh name items = and_then (find_typed t name items) λ r. elim r [
    | some _ ↦ and_then items λ xs. and_then (change_first name store xs) λ ys. some (some ys)
    | none ↦
        and_then (erase_item name items) λ rest. and_then fresh λ item. some (append_item item rest)
  ]

  unfoldable pub header_set_string :
      Option CString → Option CString → MmsHeader → Option (MmsResult × MmsHeader)
  unfolding put_item strdup header_item_string_create
  header_set_string (some name) (some (c ∷ value)) h = stored h (
      put_item type_string
        (λ it. and_then (strdup a (some (c ∷ value))) λ s. some (record it { value = string s }))
        (header_item_string_create a (some name) (some (c ∷ value))) name h.items)
  header_set_string none value h = some (result_fail, h)
  header_set_string (some name) none h = some (result_fail, h)
  header_set_string (some name) (some []) h = some (result_fail, h)

  unfoldable pub header_set_encoded_string :
      Option CString → Option CString → ℕ → MmsHeader → Option (MmsResult × MmsHeader)
  unfolding put_item strdup header_item_encoded_string_create
  header_set_encoded_string (some name) (some (c ∷ value)) charset h =
      if int_positive charset
      then stored h (
          put_item type_encoded_string
            (λ it.
              and_then (strdup a (some (c ∷ value)))
                λ s. some (record it { value = encoded_string charset s }))
            (header_item_encoded_string_create a (some name) (some (c ∷ value)) charset) name
            h.items)
      else some (result_fail, h)
  header_set_encoded_string none value charset h = some (result_fail, h)
  header_set_encoded_string (some name) none charset h = some (result_fail, h)
  header_set_encoded_string (some name) (some []) charset h = some (result_fail, h)

  unfoldable pub header_set_long : Option CString → ℕ → MmsHeader → Option (MmsResult × MmsHeader)
  unfolding put_item header_item_long_create
  header_set_long none value h = some (result_fail, h)
  header_set_long (some name) value h = stored h (
      put_item type_long_int (λ it. some (record it { value = long_int value }))
        (some (header_item_long_create a (some name) value)) name h.items)

  unfoldable pub header_set_time :
      Option CString → Bool → ℕ → MmsHeader → Option (MmsResult × MmsHeader)
  unfolding put_item header_item_time_create
  header_set_time none is_relative value h = some (result_fail, h)
  header_set_time (some name) is_relative value h =
      let rel_abs = if is_relative then relative_token else absolute_token in
      stored h (
        put_item type_time (λ it. some (record it { value = time rel_abs value }))
          (some (header_item_time_create a (some name) rel_abs value)) name h.items)

  unfoldable pub header_set_content_type :
      Option MmsContentType → MmsHeader → Option (MmsResult × MmsHeader)
  unfolding erase_item append_item header_item_data_create
  header_set_content_type none h = some (result_fail, h)
  header_set_content_type (some t) h = stored h (
      and_then (erase_item (codes "Content-Type") h.items) λ rest. some (
        append_item
          (header_item_data_create a (some (codes "Content-Type")) (some t) content_type_destroy)
          rest))
